-- ===== src/ConnectionQuality/Tracker/Hysteresis.antt =====
-- The level gets worse quickly and better slowly, and never on a single poll.
use sozvon.Base.{ℕ, ◌≤◌, ◌<◌, ◌≡◌, ◌≢◌, false, Option, none, some, arith}
use sozvon.ConnectionQuality.{Level, rank, Snapshot, level_of, reaches}
use sozvon.ConnectionQuality.Tracker.{Tracker, Ice, failed, is_lost, sample, update}
use sozvon.ConnectionQuality.Tracker.Settling.{counts_first, counts_next, counts_last}

-- With nothing waiting, the first of two polls whose raw level is worse than the settled one does
-- not move it and the second does; the connection is not lost, and neither poll is `failed`.
pub worsens_after_two :
    (i j : Ice) (p q : Option Snapshot) (t : Tracker) (r : Level)
    → i ≢ failed
    → j ≢ failed
    → is_lost t.level ≡ false
    → t.pending ≡ none
    → rank t.level < rank r
    → (sample i p t).1 ≡ some r
    → (sample j q (update i p t)).1 ≡ some r
    → ((update i p t).level ≡ t.level) × ((update j q (update i p t)).level ≡ r)
worsens_after_two i j p q t r hi hj l n w a b =
    let differ : rank r ≢ rank t.level = λ e. omega (arith, e, w) in
    let first = counts_first i p t r hi a l n differ in
    (
      first.stays,
      counts_last j q (update i p t) r hj b t.level 1 l first differ (ground (arith, w)),
    )

-- With nothing waiting, the first two of three polls whose raw level is better than the settled one
-- do not move it and the third does; the connection is not lost, and no poll is `failed`.
pub improves_after_three :
    (i j k : Ice) (p q u : Option Snapshot) (t : Tracker) (r : Level)
    → i ≢ failed
    → j ≢ failed
    → k ≢ failed
    → is_lost t.level ≡ false
    → t.pending ≡ none
    → rank r < rank t.level
    → (sample i p t).1 ≡ some r
    → (sample j q (update i p t)).1 ≡ some r
    → (sample k u (update j q (update i p t))).1 ≡ some r
    → ((update i p t).level ≡ t.level)
      × ((update j q (update i p t)).level ≡ t.level)
      × ((update k u (update j q (update i p t))).level ≡ r)
improves_after_three i j k p q u t r hi hj hk l n w a b c =
    let differ : rank r ≢ rank t.level = λ e. omega (arith, e, w) in
    let first = counts_first i p t r hi a l n differ in
    let second =
      counts_next j q (update i p t) r hj b t.level 1 l first differ (ground (arith, w)) in
    (
      first.stays,
      second.stays,
      counts_last k u (update j q (update i p t)) r hk c t.level 2 l second differ
          (ground (arith, w)),
    )

-- Numbers that are all as bad or worse never give a better level.
level_of-monotone :
    (a b c x y z : ℕ) → a ≤ x → b ≤ y → c ≤ z → rank (level_of a b c) ≤ rank (level_of x y z)
unfolding level_of reaches
level_of-monotone a b c x y z h k l = ground arith
