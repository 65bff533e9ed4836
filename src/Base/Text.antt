-- ===== src/Base/Text.antt =====
-- A text as JavaScript compares and measures it: the list of its units. Units and characters are the
-- same in the texts that the client compares.
use Prim.Native.Nat.{ℕ}
use Prim.Native.Char.{code}
use Prim.Native.String.{String, [] as ends, ◌∷◌ as ◌⊳◌}
use mathlib.Core.Path.{◌≡◌, refl, ap₂}
use mathlib.Core.List.{List, [], ◌∷◌}
use text.Mathlib.TextEquality.{Char-path}

abbrev pub units : String → List ℕ
units ends = []
units (first ⊳ later) = code first ∷ units later

pub units-injective : (s t : String) → units s ≡ units t → s ≡ t
units-injective ends ends e = refl
units-injective ends (d ⊳ t) e = absurd (cc)
units-injective (c ⊳ s) ends e = absurd (cc)
units-injective (c ⊳ s) (d ⊳ t) e =
    ap₂ (λ x y. x ⊳ y) (Char-path c d (cc)) (units-injective s t (cc))
