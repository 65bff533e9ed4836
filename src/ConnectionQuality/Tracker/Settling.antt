-- ===== src/ConnectionQuality/Tracker/Settling.antt =====
-- How the settled level moves.
use sozvon.Base.{
  ℕ, ◌+◌, ◌≤◌, ◌<◌, ◌≡◌, ◌≢◌, refl, ◌∙◌, inl, inr, true, false, Option, none, some, arith,
  Bool-cases,
}
use sozvon.ConnectionQuality.{Level, good, weak, bad, lost, rank, Snapshot}
use sozvon.ConnectionQuality.Tracker.{
  Tracker, Ice, connected, completed, disconnected, failed, other, is_lost, sample, restore, settle,
  give_up, follow, update, needed, is_pending,
}

-- What waits is another level than the settled one, seen at least once and less often than it takes;
-- nothing waits while the connection is lost.
abbrev pub IsWaiting : Level → Option Level → ℕ → Type 0
IsWaiting level none n = n ≡ 0
IsWaiting level (some p) n = (rank p ≢ rank level) × (level ≢ lost) × (1 ≤ n) × (n < needed level p)

abbrev pub IsValid : Tracker → Type 0
IsValid t = IsWaiting t.level t.pending t.count

settle-IsValid :
    (raw : Option Level) (t : Tracker) → t.level ≢ lost → IsValid t → IsValid (settle raw t)
unfolding settle
settle-IsValid none t l v = refl
settle-IsValid (some raw) t l v = ground (arith, l)

restore-IsValid :
    (ice : Ice) (raw : Option Level) (t : Tracker) → IsValid t → IsValid (restore ice raw t)
unfolding restore
restore-IsValid ice raw t v = ground arith

sample-IsValid :
    (ice : Ice) (snap : Option Snapshot) (t : Tracker) → IsValid t → IsValid (sample ice snap t).0
unfolding sample
sample-IsValid disconnected snap t v = v
sample-IsValid connected none t v = v
sample-IsValid connected (some s) t v = v
sample-IsValid completed none t v = v
sample-IsValid completed (some s) t v = v
sample-IsValid failed none t v = v
sample-IsValid failed (some s) t v = v
sample-IsValid other none t v = v
sample-IsValid other (some s) t v = v

not_lost : (l : Level) → is_lost l ≡ false → l ≢ lost
not_lost good e = λ q. cc
not_lost weak e = λ q. cc
not_lost bad e = λ q. cc
not_lost lost e = absurd (cc)

follow-IsValid : (ice : Ice) (s : Tracker × Option Level) → IsValid s.0 → IsValid (follow ice s)
unfolding follow
follow-IsValid ice s v = elim (Bool-cases (is_lost s.0.level)) [
  | inl e ↦ rw (e, follow) (restore-IsValid ice s.1 s.0 v)
  | inr e ↦ rw (e, follow) (settle-IsValid s.1 s.0 (not_lost s.0.level e) v)
]

-- Every poll keeps the tracker valid: what waits to become the level is another level, was seen at
-- least once in a row and less often than it takes, and nothing waits while the connection is lost.
pub update-IsValid :
    (ice : Ice) (snap : Option Snapshot) (t : Tracker) → IsValid t → IsValid (update ice snap t)
unfolding update give_up
update-IsValid failed snap t v = refl
update-IsValid connected snap t v =
    follow-IsValid connected (sample connected snap t) (sample-IsValid connected snap t v)
update-IsValid completed snap t v =
    follow-IsValid completed (sample completed snap t) (sample-IsValid completed snap t v)
update-IsValid disconnected snap t v =
    follow-IsValid disconnected (sample disconnected snap t) (sample-IsValid disconnected snap t v)
update-IsValid other snap t v =
    follow-IsValid other (sample other snap t) (sample-IsValid other snap t v)

-- What a poll other than `failed` does to a tracker that is not lost.
pub record IsSettled (t u : Tracker) (raw : Option Level) : Type 0 where
  pub level_same : u.level ≡ (settle raw t).level
  pub pending_same : u.pending ≡ (settle raw t).pending
  pub count_same : u.count ≡ (settle raw t).count

pub sample-keeps :
    (ice : Ice) (snap : Option Snapshot) (t : Tracker)
    → ((sample ice snap t).0.level ≡ t.level)
      × ((sample ice snap t).0.pending ≡ t.pending)
      × ((sample ice snap t).0.count ≡ t.count)
unfolding sample
sample-keeps disconnected snap t = (refl, refl, refl)
sample-keeps connected none t = (refl, refl, refl)
sample-keeps connected (some s) t = (refl, refl, refl)
sample-keeps completed none t = (refl, refl, refl)
sample-keeps completed (some s) t = (refl, refl, refl)
sample-keeps failed none t = (refl, refl, refl)
sample-keeps failed (some s) t = (refl, refl, refl)
sample-keeps other none t = (refl, refl, refl)
sample-keeps other (some s) t = (refl, refl, refl)

pub update-follow :
    (ice : Ice) (snap : Option Snapshot) (t : Tracker)
    → ice ≢ failed
    → update ice snap t ≡ follow ice (sample ice snap t)
unfolding update
update-follow failed snap t h = absurd (h refl)
update-follow connected snap t h = refl
update-follow completed snap t h = refl
update-follow disconnected snap t h = refl
update-follow other snap t h = refl

settle-same :
    (raw : Option Level) (t u : Tracker)
    → u.level ≡ t.level
    → u.pending ≡ t.pending
    → u.count ≡ t.count
    → IsSettled t (settle raw u) raw
unfolding settle
settle-same none t u l p c = ground (arith, l, p, c)
settle-same (some raw) t u l p c = ground (arith, l, p, c)

pub update-IsSettled :
    (ice : Ice) (snap : Option Snapshot) (t : Tracker)
    → ice ≢ failed
    → is_lost t.level ≡ false
    → IsSettled t (update ice snap t) (sample ice snap t).1
unfolding follow
update-IsSettled ice snap t h l =
    let (a, b, c) = sample-keeps ice snap t in
    let e : is_lost (sample ice snap t).0.level ≡ false = rw a l in
    rw (update-follow ice snap t h, follow, e)
      (settle-same (sample ice snap t).1 t (sample ice snap t).0 a b c)

pub rank-injective : (a b : Level) → rank a ≡ rank b → a ≡ b
rank-injective a b e = ground arith

is_pending-some : (r : Level) → is_pending r (some r) ≡ true
is_pending-some r = ground arith

-- With nothing waiting, the first of some polls with one raw level moves nothing but the wait.
settle-first :
    (r : Level) (t : Tracker)
    → t.pending ≡ none
    → rank r ≢ rank t.level
    → ((settle (some r) t).level ≡ t.level)
      × ((settle (some r) t).pending ≡ some r)
      × ((settle (some r) t).count ≡ 1)
unfolding settle
settle-first r t p d = ground (arith, p)

settle-next :
    (r : Level) (t : Tracker)
    → t.pending ≡ some r
    → rank r ≢ rank t.level
    → t.count + 1 < needed t.level r
    → ((settle (some r) t).level ≡ t.level)
      × ((settle (some r) t).pending ≡ some r)
      × ((settle (some r) t).count ≡ t.count + 1)
unfolding settle
settle-next r t p d n = ground (arith, p, is_pending-some r)

settle-last :
    (r : Level) (t : Tracker)
    → t.pending ≡ some r
    → rank r ≢ rank t.level
    → needed t.level r ≤ t.count + 1
    → (settle (some r) t).level ≡ r
unfolding settle
settle-last r t p d n = ground (arith, p, is_pending-some r)

-- What some polls with one raw level leave.
pub record IsCounted (level r : Level) (n : ℕ) (t : Tracker) : Type 0 where
  pub stays : t.level ≡ level
  pub waits : t.pending ≡ some r
  pub counted : t.count ≡ n

module _ (ice : Ice) (snap : Option Snapshot) (t : Tracker) (r : Level) (alive : ice ≢ failed)
    (raw : (sample ice snap t).1 ≡ some r) where
  settled : is_lost t.level ≡ false → IsSettled t (update ice snap t) (some r)
  settled l = rw raw at (update-IsSettled ice snap t alive l)

  pub counts_first :
      is_lost t.level ≡ false
      → t.pending ≡ none
      → rank r ≢ rank t.level
      → IsCounted t.level r 1 (update ice snap t)
  counts_first l p d =
      let s = settled l in
      let (a, b, c) = settle-first r t p d in
      record { stays = s.level_same ∙ a; waits = s.pending_same ∙ b; counted = s.count_same ∙ c }

  pub counts_next :
      (level : Level) (n : ℕ)
      → is_lost level ≡ false
      → IsCounted level r n t
      → rank r ≢ rank level
      → n + 1 < needed level r
      → IsCounted level r (n + 1) (update ice snap t)
  counts_next level n l k d m =
      let s = settled (rw k.stays l) in
      let (a, b, c) = settle-next r t k.waits (rw k.stays d) (rw (k.stays, k.counted) m) in
      record {
        stays = s.level_same ∙ a ∙ k.stays;
        waits = s.pending_same ∙ b;
        counted = s.count_same ∙ c ∙ (rw k.counted refl);
      }

  pub counts_last :
      (level : Level) (n : ℕ)
      → is_lost level ≡ false
      → IsCounted level r n t
      → rank r ≢ rank level
      → needed level r ≤ n + 1
      → (update ice snap t).level ≡ r
  counts_last level n l k d m =
      let s = settled (rw k.stays l) in
      s.level_same ∙ settle-last r t k.waits (rw k.stays d) (rw (k.stays, k.counted) m)
