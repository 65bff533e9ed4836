-- ===== src/Bitrate/Caps/Invariant.antt =====
-- The registry holds no stream without requests, and no cap out of range, whatever values the
-- receivers send.
use sozvon.Base.{
  ℕ, ◌≤◌, ◌≡◌, refl, String, Option, none, some, List, [], ◌∷◌, str_eq, lookup, insert, erase,
  arith, Bool-cases, Option-cases, inl, inr, All, length, if_intro,
}
use mathlib.Core.Path.{subst}
use sozvon.Bitrate.{Value, amount, sanitize_cap, min_cap, max_cap}
use sozvon.Bitrate.Caps.{Requests, Caps, expired, prune, put, get, request, set, or_empty, forget}

abbrev pub InRange : ℕ → Type 0
InRange cap = (min_cap ≤ cap) × (cap ≤ max_cap)

abbrev pub AreInRange : Requests → Type 0
AreInRange m = All (λ x. InRange x.1.cap) m

abbrev pub IsValid : Caps → Type 0
IsValid c = All (λ x. (1 ≤ length x.1) × AreInRange x.1) c

-- Only caps in range pass, whatever is sent.
pub sanitize_cap-InRange : (v : Value) (cap : ℕ) → sanitize_cap v ≡ some cap → InRange cap
unfolding sanitize_cap
sanitize_cap-InRange (amount m) cap e = ground arith
sanitize_cap-InRange Value.negative cap e = cc
sanitize_cap-InRange Value.not_finite cap e = cc
sanitize_cap-InRange Value.not_number cap e = cc

-- The three operations on a map, for a predicate on its values.
module _ {V : Type 0} (P : V → Type 0) where
  insert-All :
      (k : String) (v : V) (m : List (String × V))
      → P v
      → All (λ x. P x.1) m
      → All (λ x. P x.1) (insert k v m)
  unfolding insert
  insert-All k v [] p h = (p, tt)
  insert-All k v ((j, w) ∷ m) p h =
      if_intro (All (λ x. P x.1)) (str_eq j k) (p, h.1) (h.0, insert-All k v m p h.1)

  erase-All :
      (k : String) (m : List (String × V)) → All (λ x. P x.1) m → All (λ x. P x.1) (erase k m)
  unfolding erase
  erase-All k [] h = tt
  erase-All k ((j, w) ∷ m) h =
      if_intro (All (λ x. P x.1)) (str_eq j k) (erase-All k m h.1) (h.0, erase-All k m h.1)

  lookup-All :
      (k : String) (v : V) (m : List (String × V)) → All (λ x. P x.1) m → lookup k m ≡ some v → P v
  unfolding lookup
  lookup-All k v [] h e = cc
  lookup-All k v ((j, w) ∷ m) h e = elim (Bool-cases (str_eq j k)) [
    | inl q ↦ subst P (cc) h.0
    | inr q ↦ lookup-All k v m h.1 (cc)
  ]

insert_nonempty {ℓ} :
    {V : Type ℓ} (k : String) (v : V) (m : List (String × V)) → 1 ≤ length (insert k v m)
unfolding insert
insert_nonempty k v [] = omega arith
insert_nonempty k v ((j, w) ∷ m) = ground arith

abbrev IsGood : Requests → Type 0
IsGood m = (1 ≤ length m) × AreInRange m

prune-AreInRange : (now : ℕ) (m : Requests) → AreInRange m → AreInRange (prune now m)
unfolding prune
prune-AreInRange now [] h = tt
prune-AreInRange now ((from, e) ∷ m) h =
    if_intro AreInRange (expired now e) (prune-AreInRange now m h.1)
      (h.0, prune-AreInRange now m h.1)

put-IsValid :
    (stream : String) (m : Requests) (c : Caps)
    → AreInRange m
    → IsValid c
    → IsValid (put stream m c)
unfolding put
put-IsValid stream [] c h v = erase-All IsGood stream c v
put-IsValid stream (x ∷ m) c h v = insert-All IsGood stream (x ∷ m) c (omega arith, h) v

get-IsValid : (stream : String) (now : ℕ) (c : Caps) → IsValid c → IsValid (get stream now c).0
unfolding get
get-IsValid stream now c v = elim (Option-cases (lookup stream c)) [
  | inl e ↦ rw (e, get) v
  | inr (m, e) ↦
      rw (e, get)
        (put-IsValid stream (prune now m) c
          (prune-AreInRange now m (lookup-All IsGood stream m c v e).1) v)
]

or_empty-AreInRange :
    (stream : String) (c : Caps) → IsValid c → AreInRange (or_empty (lookup stream c))
unfolding or_empty
or_empty-AreInRange stream c v = elim (Option-cases (lookup stream c)) [
  | inl e ↦ rw (e, or_empty) tt
  | inr (m, e) ↦ rw (e, or_empty) (lookup-All IsGood stream m c v e).1
]

request-IsValid :
    (stream from : String) (cap : Option ℕ) (now : ℕ) (c : Caps)
    → ((n : ℕ) → cap ≡ some n → InRange n)
    → IsValid c
    → IsValid (request stream from cap now c)
unfolding request
request-IsValid stream from none now c h v = elim (Option-cases (lookup stream c)) [
  | inl e ↦ rw (e, request) v
  | inr (m, e) ↦
      rw (e, request)
        (put-IsValid stream (erase from m) c
          (erase-All (λ x. InRange x.cap) from m (lookup-All IsGood stream m c v e).1) v)
]
request-IsValid stream from (some n) now c h v =
    insert-All IsGood stream _ c
      (
        insert_nonempty from _ _,
        insert-All (λ x. InRange x.cap) from (record { cap = n; since = now })
            (or_empty (lookup stream c)) (h n refl) (or_empty-AreInRange stream c v),
      )
      v

-- Recording any value keeps the registry valid: no stream is without requests, and every cap is in
-- the range allowed.
pub set-IsValid :
    (stream from : String) (value : Value) (now : ℕ) (c : Caps)
    → IsValid c
    → IsValid (set stream from value now c).0
unfolding set
set-IsValid stream from value now c v = get-IsValid stream now _ (
    request-IsValid stream from (sanitize_cap value) now _ (sanitize_cap-InRange value)
      (get-IsValid stream now c v))

keep-IsValid :
    (stream : String) (m : Requests) (c : Caps)
    → AreInRange m
    → IsValid c
    → IsValid (elim m [ [] ↦ c | x ∷ xs ↦ (stream, x ∷ xs) ∷ c ])
keep-IsValid stream [] c h v = v
keep-IsValid stream (x ∷ xs) c h v = ((omega arith, h), v)

-- Dropping the requests of a receiver that left keeps the registry valid.
pub forget-IsValid : (from : String) (c : Caps) → IsValid c → IsValid (forget from c).0
unfolding forget
forget-IsValid from [] v = tt
forget-IsValid from ((stream, m) ∷ c) v =
    keep-IsValid stream (erase from m) _ (erase-All (λ x. InRange x.cap) from m v.0.1)
      (forget-IsValid from c v.1)
