-- ===== src/Base/Maps.antt =====
-- A JavaScript `Map` with text keys: an association list in order of insertion. `set` on a key
-- that is there keeps its place, `delete` takes the key out.
use Prim.Native.String.{String}
use mathlib.Core.Path.{◌≡◌, refl}
use mathlib.Core.Option.{Option, none, some}
use mathlib.Core.List.{List, [], ◌∷◌}
use native.Mathlib.Omega.{arith}
use text.Mathlib.Text.{◌==◌ as str_eq}
use text.Mathlib.TextEquality.{eq_iff}
use sozvon.Base.Tests.{if◌then◌else◌}

module _ {ℓ} {A : Type ℓ} where
  unfoldable pub lookup : String → List (String × A) → Option A
  lookup key [] = none
  lookup key (entry ∷ rest) = if str_eq entry.0 key then some entry.1 else lookup key rest

  unfoldable pub insert : String → A → List (String × A) → List (String × A)
  insert key a [] = (key, a) ∷ []
  insert key a (entry ∷ rest) =
      if str_eq entry.0 key then (entry.0, a) ∷ rest else entry ∷ insert key a rest

  unfoldable pub erase : String → List (String × A) → List (String × A)
  erase key [] = []
  erase key (entry ∷ rest) = if str_eq entry.0 key then erase key rest else entry ∷ erase key rest

  pub lookup-insert :
      (key wanted : String) (a : A) (entries : List (String × A))
      → lookup wanted (insert key a entries)
        ≡ (if str_eq key wanted then some a else lookup wanted entries)
  unfolding insert lookup
  lookup-insert key wanted a [] = refl
  lookup-insert key wanted a (entry ∷ rest) =
      let found = lookup-insert key wanted a rest in
      ground (arith, found, eq_iff entry.0 wanted, eq_iff entry.0 key, eq_iff key wanted)

  pub lookup-erase :
      (key wanted : String) (entries : List (String × A))
      → lookup wanted (erase key entries)
        ≡ (if str_eq key wanted then none else lookup wanted entries)
  unfolding erase lookup
  lookup-erase key wanted [] = ground arith
  lookup-erase key wanted (entry ∷ rest) =
      let found = lookup-erase key wanted rest in
      ground (arith, found, eq_iff entry.0 wanted, eq_iff entry.0 key, eq_iff key wanted)
