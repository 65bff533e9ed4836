-- ===== src/ConnectionQuality/Tracker/Course.antt =====
-- The settled level against the polls in a row that it took.
use mathlib.Core.Path.{subst}
use sozvon.Base.{
  ℕ, zero, suc, ◌+◌, ◌≤◌, ◌≡◌, ◌≢◌, refl, sym, ap, ◌∙◌, ◌⊎◌, inl, inr, true, false, Option, none,
  some, List, [], ◌∷◌, arith, Bool-cases, Option-cases, ltb, leb, if◌then◌else◌,
}
use sozvon.ConnectionQuality.{Level, lost, rank, Snapshot}
use sozvon.ConnectionQuality.Tracker.{
  Tracker, new, Ice, connected, completed, disconnected, failed, other, is_lost, is_up, sample,
  settle, restore, follow, give_up, update, needed, is_pending, same_level,
}
use sozvon.ConnectionQuality.Tracker.Settling.{
  IsValid, update-IsValid, update-follow, sample-keeps, update-IsSettled, rank-injective,
}

abbrev pub Poll : Type 0
Poll = Ice × Option Snapshot

-- The newest poll stands first.
unfoldable pub run : List Poll → Tracker
run [] = new
run (x ∷ xs) = update x.0 x.1 (run xs)

-- The level that each poll showed by itself, or none.
unfoldable pub raws : List Poll → List (Option Level)
unfolding run
raws [] = []
raws (x ∷ xs) = (sample x.0 x.1 (run xs)).1 ∷ raws xs

-- The first `n` are all the level `l`.
abbrev pub AreAll : ℕ → Level → List (Option Level) → Type 0
AreAll zero l rs = Unit {0}
AreAll (suc n) l [] = ⊥
AreAll (suc n) l (r ∷ rs) = (r ≡ some l) × AreAll n l rs

AreAll-fewer :
    (m n : ℕ) (l : Level) (rs : List (Option Level)) → m ≤ n → AreAll n l rs → AreAll m l rs
AreAll-fewer zero n l rs h a = tt
AreAll-fewer (suc m) zero l rs h a = absurd (omega arith)
AreAll-fewer (suc m) (suc n) l [] h a = a
AreAll-fewer (suc m) (suc n) l (r ∷ rs) h a = (a.0, AreAll-fewer m n l rs (omega arith) a.1)

-- What waits was shown by as many of the newest polls in a row as are counted.
abbrev pub IsBacked : Tracker → List (Option Level) → Type 0
IsBacked t rs = (p : Level) → t.pending ≡ some p → AreAll t.count p rs

abbrev counted : Level → Tracker → ℕ
counted r t = (if is_pending r t.pending then t.count else 0) + 1

AreAll-more :
    (n : ℕ) (l : Level) (rs : List (Option Level)) → AreAll n l rs → AreAll (n + 1) l (some l ∷ rs)
AreAll-more n l rs a =
    let more : AreAll (suc n) l (some l ∷ rs) = (refl, a) in
    let one : suc n ≡ n + 1 = omega arith in subst (λ k. AreAll k l (some l ∷ rs)) one more

counted-AreAll :
    (r : Level) (t : Tracker) (rs : List (Option Level))
    → IsBacked t rs
    → AreAll (counted r t) r (some r ∷ rs)
counted-AreAll r t rs b = elim (Bool-cases (is_pending r t.pending)) [
  | inr e ↦ rw e (refl, tt)
  | inl e ↦ elim (Option-cases t.pending) [
    | inl q ↦ ground arith
    | inr (p, q) ↦
        let same : p ≡ r = rank-injective p r (ground arith) in
        let held : AreAll t.count r rs = b r (q ∙ ap some same) in
        rw e (AreAll-more t.count r rs held)
  ]
]

settle_waits :
    (r : Level) (t : Tracker)
    → same_level r t.level ≡ false
    → leb (needed t.level r) (counted r t) ≡ false
    → ((settle (some r) t).level ≡ t.level)
      × ((settle (some r) t).pending ≡ some r)
      × ((settle (some r) t).count ≡ counted r t)
unfolding settle
settle_waits r t d n = ground arith

settle_moves :
    (r : Level) (t : Tracker)
    → same_level r t.level ≡ false
    → leb (needed t.level r) (counted r t) ≡ true
    → ((settle (some r) t).level ≡ r) × ((settle (some r) t).pending ≡ none)
unfolding settle
settle_moves r t d n = ground arith

settle_stays :
    (r : Level) (t : Tracker)
    → same_level r t.level ≡ true
    → ((settle (some r) t).level ≡ t.level) × ((settle (some r) t).pending ≡ none)
unfolding settle
settle_stays r t d = ground arith

none-IsBacked : (t : Tracker) (rs : List (Option Level)) → t.pending ≡ none → IsBacked t rs
none-IsBacked t rs e p q = cc

-- What is settled from what was backed is backed, and the level moved only for enough polls.
abbrev pub Moves : Tracker → Tracker → List (Option Level) → Type 0
Moves t u rs = (u.level ≡ t.level) ⊎ AreAll (needed t.level u.level) u.level rs

settle-IsBacked :
    (raw : Option Level) (t : Tracker) (rs : List (Option Level))
    → IsBacked t rs
    → IsBacked (settle raw t) (raw ∷ rs) × Moves t (settle raw t) (raw ∷ rs)
settle-IsBacked none t rs b = unfold settle in ((λ p e. cc), inl refl)
settle-IsBacked (some r) t rs b = elim (Bool-cases (same_level r t.level)) [
  | inl e ↦
      let (l, p) = settle_stays r t e in (none-IsBacked (settle (some r) t) (some r ∷ rs) p, inl l)
  | inr e ↦ elim (Bool-cases (leb (needed t.level r) (counted r t))) [
    | inl n ↦
        let (l, p) = settle_moves r t e n in
        let all =
          AreAll-fewer (needed t.level r) (counted r t) r (some r ∷ rs) (ground arith)
            (counted-AreAll r t rs b) in
        (
          none-IsBacked (settle (some r) t) (some r ∷ rs) p,
          inr (subst (λ x. AreAll (needed t.level x) x (some r ∷ rs)) (sym l) all),
        )
    | inr n ↦
        let (l, p, c) = settle_waits r t e n in
        (
          λ q w.
              subst (λ x. AreAll x q (some r ∷ rs)) (sym c)
                (subst (λ x. AreAll (counted r t) x (some r ∷ rs)) (some_same r q (sym p ∙ w))
                  (counted-AreAll r t rs b)),
          inl l,
        )
  ]
]
  where
    some_same : (a b : Level) → some a ≡ some b → a ≡ b
    some_same a b e = cc

is_lost-lost : (l : Level) → is_lost l ≡ true → l ≡ lost
is_lost-lost l e = rank-injective l lost (ground arith)

run-IsValid : (xs : List Poll) → IsValid (run xs)
unfolding run
run-IsValid [] = refl
run-IsValid (x ∷ xs) = update-IsValid x.0 x.1 (run xs) (run-IsValid xs)

-- What a poll does to the level.
abbrev pub Changes : Ice → Tracker → Tracker → List (Option Level) → Type 0
Changes ice t u rs =
    (ice ≡ failed) × (u.level ≡ lost)
    ⊎ (t.level ≡ lost) × ((u.level ≡ lost) ⊎ (is_up ice ≡ true))
    ⊎ (u.level ≡ t.level)
    ⊎ AreAll (if ltb (rank t.level) (rank u.level) then 2 else 3) u.level rs

lost-pending : (t : Tracker) → IsValid t → t.level ≡ lost → t.pending ≡ none
lost-pending t v l = elim (Option-cases t.pending) [ inl e ↦ e | inr (p, e) ↦ ground arith ]

update-lost-pending :
    (ice : Ice) (snap : Option Snapshot) (t : Tracker)
    → ice ≢ failed
    → is_lost t.level ≡ true
    → t.pending ≡ none
    → (update ice snap t).pending ≡ none
unfolding follow restore
update-lost-pending ice snap t h l p =
    let (a, b, c) = sample-keeps ice snap t in
    let gone : is_lost (sample ice snap t).0.level ≡ true = rw a l in
    rw (update-follow ice snap t h) (ground (arith, gone, b, p))

update-lost-level :
    (ice : Ice) (snap : Option Snapshot) (t : Tracker)
    → ice ≢ failed
    → is_lost t.level ≡ true
    → is_up ice ≡ false
    → (update ice snap t).level ≡ t.level
unfolding follow restore
update-lost-level ice snap t h l d =
    let (a, b, c) = sample-keeps ice snap t in
    let gone : is_lost (sample ice snap t).0.level ≡ true = rw a l in
    rw (update-follow ice snap t h) (ground (arith, gone, a, d))

alive-IsBacked :
    (ice : Ice) (snap : Option Snapshot) (t : Tracker) (rs : List (Option Level))
    → ice ≢ failed
    → IsValid t
    → IsBacked t rs
    → IsBacked (update ice snap t) ((sample ice snap t).1 ∷ rs)
      × Changes ice t (update ice snap t) ((sample ice snap t).1 ∷ rs)
alive-IsBacked ice snap t rs h v b = elim (Bool-cases (is_lost t.level)) [
  | inl e ↦
      let gone = is_lost-lost t.level e in
      (
        none-IsBacked (update ice snap t) ((sample ice snap t).1 ∷ rs)
            (update-lost-pending ice snap t h e (lost-pending t v gone)),
        inr (
            inl (
              gone,
              elim (Bool-cases (is_up ice)) [
                | inl d ↦ inr d
                | inr d ↦ inl (update-lost-level ice snap t h e d ∙ gone)
              ],
            )),
      )
  | inr e ↦
      let same = update-IsSettled ice snap t h e in
      let (backed, moved) = settle-IsBacked (sample ice snap t).1 t rs b in
      (
        λ p w.
            subst (λ n. AreAll n p ((sample ice snap t).1 ∷ rs)) (sym same.count_same)
              (backed p (sym same.pending_same ∙ w)),
        inr (
            inr (
              subst (λ x. (x ≡ t.level) ⊎ AreAll (needed t.level x) x ((sample ice snap t).1 ∷ rs))
                (sym same.level_same) moved)),
      )
]

poll-IsBacked :
    (ice : Ice) (snap : Option Snapshot) (t : Tracker) (rs : List (Option Level))
    → IsValid t
    → IsBacked t rs
    → IsBacked (update ice snap t) ((sample ice snap t).1 ∷ rs)
      × Changes ice t (update ice snap t) ((sample ice snap t).1 ∷ rs)
unfolding update give_up
poll-IsBacked failed snap t rs v b = ((λ p e. cc), inl (refl, refl))
poll-IsBacked connected snap t rs v b = alive-IsBacked connected snap t rs (λ e. cc) v b
poll-IsBacked completed snap t rs v b = alive-IsBacked completed snap t rs (λ e. cc) v b
poll-IsBacked disconnected snap t rs v b = alive-IsBacked disconnected snap t rs (λ e. cc) v b
poll-IsBacked other snap t rs v b = alive-IsBacked other snap t rs (λ e. cc) v b

run-IsBacked : (xs : List Poll) → IsBacked (run xs) (raws xs)
unfolding run raws
run-IsBacked [] = none-IsBacked new [] refl
run-IsBacked (x ∷ xs) =
    (poll-IsBacked x.0 x.1 (run xs) (raws xs) (run-IsValid xs) (run-IsBacked xs)).0

-- After any polls of a new tracker, the next one leaves the settled level, with three exceptions: ICE
-- failed, and the connection is lost; it was lost before, and ICE is up again; or the newest polls in
-- a row, this one included, all showed the new level by themselves, two of them where it is a worse
-- one, three where it is better.
pub update-Changes :
    (ice : Ice) (snap : Option Snapshot) (xs : List Poll)
    → Changes ice (run xs) (update ice snap (run xs)) (raws ((ice, snap) ∷ xs))
unfolding raws
update-Changes ice snap xs =
    (poll-IsBacked ice snap (run xs) (raws xs) (run-IsValid xs) (run-IsBacked xs)).1
