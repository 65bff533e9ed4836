-- ===== src/TurnFallback/Memory/Kept.antt =====
-- A decision is remembered for its time, and the storage does not grow.
use sozvon.Base.{
  ℕ, suc, ◌+◌, ◌≤◌, ◌<◌, ◌≡◌, refl, ap, inl, inr, String, true, false, Option, none, some, List, [],
  ◌∷◌, All, take, length, length-take, leb, arith, lookup, insert, str_eq, eq_iff, Bool-cases,
  Option-cases, if_intro,
}
use sozvon.TurnFallback.Memory.{
  Item, object, nothing, broken, Storage, is_recent, recent, load, load_item, remembered, or_empty,
  place, sort, written, remember, networks, remember_for, has,
}

-- `network` stands first, with the time `now`.
abbrev IsLatest : String → ℕ → List (String × ℕ) → Type 0
IsLatest network now [] = ⊥
IsLatest network now ((k, t) ∷ l) = (k ≡ network) × (t ≡ now)

place-All :
    (P : String × ℕ → Type 0) (x : String × ℕ) (l : List (String × ℕ))
    → P x
    → All P l
    → All P (place x l)
unfolding place
place-All P x [] p h = (p, tt)
place-All P x (y ∷ ys) p h = if_intro (All P) (leb y.1 x.1) (p, h) (h.0, place-All P x ys p h.1)

sort-All : (P : String × ℕ → Type 0) (l : List (String × ℕ)) → All P l → All P (sort l)
unfolding sort
sort-All P [] h = tt
sort-All P (x ∷ l) h = place-All P x (sort l) h.0 (sort-All P l h.1)

length-place : (x : String × ℕ) (l : List (String × ℕ)) → length (place x l) ≡ length l + 1
unfolding place
length-place x [] = refl
length-place x (y ∷ ys) = ground (arith, length-place x ys)

place-IsLatest :
    (network : String) (now : ℕ) (l : List (String × ℕ))
    → All (λ x. x.1 < now) l
    → IsLatest network now (place (network, now) l)
unfolding place
place-IsLatest network now [] h = (refl, refl)
place-IsLatest network now ((k, t) ∷ l) h = ground arith

place-earlier :
    (network : String) (now : ℕ) (x : String × ℕ) (l : List (String × ℕ))
    → x.1 < now
    → IsLatest network now l
    → IsLatest network now (place x l)
unfolding place
place-earlier network now x [] h k = absurd k
place-earlier network now x ((j, t) ∷ l) h k = ground arith

sort-IsLatest :
    (network : String) (now : ℕ) (l : List (String × ℕ))
    → All (λ x. x.1 < now) l
    → IsLatest network now (sort (insert network now l))
unfolding insert sort
sort-IsLatest network now [] h = unfold place in (refl, refl)
sort-IsLatest network now ((k, t) ∷ l) h = elim (Bool-cases (str_eq k network)) [
  | inl e ↦
      let p : k ≡ network = (eq_iff k network).0 e in
      rw (e, p) (place-IsLatest network now (sort l) (sort-All (λ x. x.1 < now) l h.1))
  | inr e ↦ rw e (
      place-earlier network now (k, t) (sort (insert network now l)) h.0
        (sort-IsLatest network now l h.1))
]

-- The decisions in the storage were taken before `now`.
abbrev pub IsBefore : ℕ → Item → Type 0
IsBefore now nothing = Unit
IsBefore now broken = Unit
IsBefore now (object v) = All (λ x. (t : ℕ) → x.1 ≡ some t → t < now) v

recent-before :
    (now : ℕ) (v : List (String × Option ℕ))
    → All (λ x. (t : ℕ) → x.1 ≡ some t → t < now) v
    → All (λ x. x.1 < now) (recent now v)
unfolding recent
recent-before now [] h = tt
recent-before now ((k, none) ∷ v) h = recent-before now v h.1
recent-before now ((k, some t) ∷ v) h =
    if_intro (All (λ x. x.1 < now)) (is_recent now t) (h.0 t refl, recent-before now v h.1)
      (recent-before now v h.1)

load_item-before :
    (i : Item) (now : ℕ) → IsBefore now i → All (λ x. x.1 < now) (or_empty (load_item i now))
unfolding load_item or_empty
load_item-before (object v) now h = recent-before now v h
load_item-before nothing now h = tt
load_item-before broken now h = tt

latest-found :
    (network : String) (now later : ℕ) (l : List (String × ℕ))
    → now ≤ later
    → later < now + remember_for
    → IsLatest network now l
    → has (lookup network (recent later (written (take networks l)))) ≡ true
unfolding written recent lookup
latest-found network now later [] h k x = absurd x
latest-found network now later ((j, t) ∷ l) h k (p, q) =
    let r : is_recent later t ≡ true = unfold is_recent in ground arith in
    let e : str_eq j network ≡ true = (eq_iff j network).1 p in rw (r, lookup, e) refl

-- A decision is remembered, on its network, for 6 hours from when it was taken, if the storage can
-- be written and holds only decisions that were taken before.
pub remembered-remember :
    (s : Storage) (now later : ℕ) (network : String)
    → s.writable ≡ true
    → IsBefore now s.item
    → now ≤ later
    → later < now + remember_for
    → remembered (remember s now network) later network ≡ true
unfolding remembered remember load load_item
remembered-remember s now later network w b h k = rw w (
    latest-found network now later _ h k
      (sort-IsLatest network now _ (load_item-before s.item now b)))

-- What a storage holds, counted.
abbrev pub size : Item → ℕ
size (object v) = length v
size nothing = 0
size broken = 0

length-written : (l : List (String × ℕ)) → length (written l) ≡ length l
unfolding written
length-written [] = refl
length-written (x ∷ l) = ap suc (length-written l)

-- At most 16 networks are kept, whatever the storage held.
size-remember :
    (s : Storage) (now : ℕ) (network : String)
    → s.writable ≡ true
    → size (remember s now network).item ≤ 16
unfolding remember
size-remember s now network w = rw w (
    omega (
      arith,
      length-written (take 16 (sort (insert network now (or_empty (load s now))))),
      length-take 16 (sort (insert network now (or_empty (load s now)))),
    ))

-- A decision that is 6 hours old or more, or from the future, is not believed.
abbrev pub AreRecent : ℕ → List (String × ℕ) → Type 0
AreRecent now l = All (λ x. (x.1 ≤ now) × (now < x.1 + remember_for)) l

recent-AreRecent : (now : ℕ) (v : List (String × Option ℕ)) → AreRecent now (recent now v)
unfolding recent is_recent
recent-AreRecent now [] = tt
recent-AreRecent now ((k, none) ∷ v) = recent-AreRecent now v
recent-AreRecent now ((k, some t) ∷ v) = elim (Bool-cases (is_recent now t)) [
  | inl e ↦ rw (e, recent) ((ground arith, ground arith), recent-AreRecent now v)
  | inr e ↦ rw (e, recent) (recent-AreRecent now v)
]

lookup-recent :
    (now : ℕ) (network : String) (l : List (String × ℕ)) (t : ℕ)
    → AreRecent now l
    → lookup network l ≡ some t
    → (t ≤ now) × (now < t + remember_for)
unfolding lookup
lookup-recent now network [] t h e = cc
lookup-recent now network ((k, u) ∷ l) t h e = ground (arith, lookup-recent now network l t)

remembered_item :
    (i : Item) (now : ℕ) (network : String)
    → elim (load_item i now) [ none ↦ false | some v ↦ has (lookup network v) ] ≡ true
    → (v : List (String × Option ℕ)) × (t : ℕ) × (i ≡ object v)
      × (lookup network (recent now v) ≡ some t)
      × (t ≤ now)
      × (now < t + remember_for)
unfolding load_item
remembered_item broken now network e = cc
remembered_item nothing now network e = unfold lookup in cc
remembered_item (object v) now network e = elim (Option-cases (lookup network (recent now v))) [
  | inl l ↦ absurd (ground (arith, l))
  | inr (t, l) ↦
      let (past, late) = lookup-recent now network (recent now v) t (recent-AreRecent now v) l in
      (v, t, refl, l, past, late)
]

-- What is remembered stands in the storage under the network's tag, with a time in the last 6
-- hours.
pub remembered-recent :
    (s : Storage) (now : ℕ) (network : String)
    → remembered s now network ≡ true
    → (v : List (String × Option ℕ)) × (t : ℕ) × (s.item ≡ object v)
      × (lookup network (recent now v) ≡ some t)
      × (t ≤ now)
      × (now < t + remember_for)
unfolding remembered load
remembered-recent s now network e = remembered_item s.item now network e
