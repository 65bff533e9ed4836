-- ===== src/TurnFallback/Memory.antt =====
-- The memory of the networks that UDP was given up on. The storage's text is what it parses to;
-- tags that are numbers, which JavaScript would list first, are not told apart from other tags.
pub mod Kept
use sozvon.Base.{
  ℕ, ◌+◌, ◌≤◌, String, Bool, true, false, ◌&&◌, Option, none, some, List, [], ◌∷◌, take, ltb, leb,
  if◌then◌else◌, lookup, insert,
}

abbrev pub remember_for : ℕ
remember_for = 21600000

abbrev pub networks : ℕ
networks = 16

-- What the item of `STORAGE_KEY` holds: an object of values, each a time or something else;
-- nothing, or a value that is not an object; a text that does not parse, or an item that throws.
pub data Item : Type 0 where
  object : List (String × Option ℕ) → Item
  nothing broken : Item

pub record Storage : Type 0 where
  pub item : Item
  -- `setItem` does not throw
  pub writable : Bool

unfoldable pub is_recent : ℕ → ℕ → Bool
is_recent now t = leb t now && ltb now (t + remember_for)

unfoldable pub recent : ℕ → List (String × Option ℕ) → List (String × ℕ)
unfolding is_recent
recent now [] = []
recent now ((k, none) ∷ v) = recent now v
recent now ((k, some t) ∷ v) = if is_recent now t then (k, t) ∷ recent now v else recent now v

-- `none` where it throws.
unfoldable pub load_item : Item → ℕ → Option (List (String × ℕ))
unfolding recent
load_item broken now = none
load_item nothing now = some []
load_item (object v) now = some (recent now v)

unfoldable pub load : Storage → ℕ → Option (List (String × ℕ))
unfolding load_item
load s now = load_item s.item now

abbrev pub has : Option ℕ → Bool
has none = false
has (some t) = true

-- No network is the empty tag.
unfoldable pub remembered : Storage → ℕ → String → Bool
unfolding load
remembered s now network = elim (load s now) [ none ↦ false | some v ↦ has (lookup network v) ]

unfoldable pub or_empty : Option (List (String × ℕ)) → List (String × ℕ)
or_empty none = []
or_empty (some v) = v

-- The stable sort, the latest first.
unfoldable pub place : String × ℕ → List (String × ℕ) → List (String × ℕ)
place x [] = x ∷ []
place x (y ∷ ys) = let rest = place x ys in if leb y.1 x.1 then x ∷ y ∷ ys else y ∷ rest

unfoldable pub sort : List (String × ℕ) → List (String × ℕ)
unfolding place
sort [] = []
sort (x ∷ xs) = place x (sort xs)

unfoldable pub written : List (String × ℕ) → List (String × Option ℕ)
written [] = []
written ((k, t) ∷ v) = (k, some t) ∷ written v

unfoldable pub remember : Storage → ℕ → String → Storage
unfolding or_empty load sort written
remember s now network =
    if s.writable
    then record s {
      item = object (written (take networks (sort (insert network now (or_empty (load s now))))));
    }
    else s
