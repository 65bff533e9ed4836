-- ===== src/Bitrate/Caps.antt =====
-- The registry `Caps`: by stream, and in it by receiver, the cap asked for and when.
pub mod Tightest
pub mod Honoured
pub mod Invariant
pub mod Tests
use sozvon.Base.{
  ℕ, ◌+◌, String, Bool, true, false, Option, none, some, List, [], ◌∷◌, ltb, ◌==◌, if◌then◌else◌,
  str_eq, lookup, insert, erase,
}
use sozvon.Bitrate.{Value, sanitize_cap, ttl}

pub record Entry : Type 0 where
  pub cap : ℕ
  pub since : ℕ

abbrev pub Requests : Type 0
Requests = List (String × Entry)

-- A stream has an entry for each receiver; a stream with none is taken out.
abbrev pub Caps : Type 0
Caps = List (String × Requests)

abbrev pub empty : Caps
empty = []

unfoldable pub expired : ℕ → Entry → Bool
expired now e = ltb (e.since + ttl) now

-- The loop of `get`: expired requests are deleted.
unfoldable pub prune : ℕ → Requests → Requests
prune now [] = []
prune now ((from, e) ∷ m) = if expired now e then prune now m else (from, e) ∷ prune now m

-- ... and the least of the others is kept.
unfoldable pub least : ℕ → Option ℕ → Requests → Option ℕ
least now best [] = best
least now best ((from, e) ∷ m) =
    least now
      (if expired now e
        then best
        else elim best [ none ↦ some e.cap | some b ↦ if ltb e.cap b then some e.cap else some b ])
      m

-- A stream without requests is deleted.
unfoldable pub put : String → Requests → Caps → Caps
put stream [] c = erase stream c
put stream (x ∷ m) c = insert stream (x ∷ m) c

unfoldable pub get : String → ℕ → Caps → Caps × Option ℕ
unfolding prune least put
get stream now c = elim (lookup stream c) [
  | none ↦ (c, none)
  | some m ↦ (put stream (prune now m) c, least now none m)
]

unfoldable pub or_empty : Option Requests → Requests
or_empty none = []
or_empty (some m) = m

-- The change that `set` makes between its two calls of `get`.
unfoldable pub request : String → String → Option ℕ → ℕ → Caps → Caps
unfolding put or_empty
request stream from none now c = elim (lookup stream c) [
  | none ↦ c
  | some m ↦ put stream (erase from m) c
]
request stream from (some cap) now c =
    insert stream (insert from (record { cap = cap; since = now }) (or_empty (lookup stream c))) c

abbrev pub differ : Option ℕ → Option ℕ → Bool
differ none none = false
differ (some a) (some b) = if a == b then false else true
differ _ _ = true

unfoldable pub set : String → String → Value → ℕ → Caps → Caps × Bool
unfolding get request
set stream from cap now c =
    let before = get stream now c in
    let after = get stream now (request stream from (sanitize_cap cap) now before.0) in
    (after.0, differ after.1 before.1)

unfoldable pub has : String → Requests → Bool
has from m = elim (lookup from m) [ none ↦ false | some e ↦ true ]

-- `forget`: the requests that remain, and the streams that lost one.
unfoldable pub forget : String → Caps → Caps × List String
unfolding has
forget from [] = ([], [])
forget from ((stream, m) ∷ c) =
    let rest = forget from c in
    let m' = erase from m in
    (
      elim m' [ [] ↦ rest.0 | x ∷ xs ↦ (stream, x ∷ xs) ∷ rest.0 ],
      if has from m then stream ∷ rest.1 else rest.1,
    )
