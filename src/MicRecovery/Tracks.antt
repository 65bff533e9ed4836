-- ===== src/MicRecovery/Tracks.antt =====
-- No device is left open with nobody holding it.
use sozvon.Base.{
  ap, ℕ, suc, ◌+◌, ◌≤◌, ◌<◌, ◌≡◌, refl, ◌⊎◌, zero, take, true, Option, none, some, List, [], ◌∷◌,
  ◌++◌, arith, length, if◌then◌else◌,
}
use sozvon.MicRecovery.{other_error, no_track, track, Round, Outcome, attempt, reopen}

abbrev pub to_list : Option ℕ → List ℕ
to_list none = []
to_list (some n) = n ∷ []

-- The tracks opened are the one handed on and the ones stopped, and at most one.
pub record IsAccounted (o : Outcome) : Type 0 where
  pub held : o.tracks ≡ to_list o.result ++ o.stopped
  pub one : length o.tracks ≤ 1

attempt-IsAccounted : (r : Round) (rest : Outcome) → IsAccounted rest → IsAccounted (attempt r rest)
unfolding attempt
attempt-IsAccounted r rest v = ground arith

-- Every track that the browser opens is handed to the caller or stopped, never both, and at most
-- one is opened.
pub reopen-IsAccounted :
    (ds : List ℕ) (rounds : ℕ → Round) (i : ℕ) → IsAccounted (reopen ds rounds i)
unfolding reopen
reopen-IsAccounted [] rounds i = record { held = refl; one = omega arith }
reopen-IsAccounted (d ∷ ds) rounds i =
    let v = attempt-IsAccounted (rounds i) _ (reopen-IsAccounted ds rounds (suc i)) in
    record { held = v.held; one = v.one }

-- A round after which the loop goes on.
abbrev pub IsFailing : Round → Type 0
IsFailing r = (r.wanted ≡ true) × ((r.opened ≡ other_error) ⊎ (r.opened ≡ no_track))

attempt-failing : (r : Round) (rest : Outcome) → IsFailing r → attempt r rest ≡ rest
unfolding attempt
attempt-failing r rest h = ground arith

-- After `k` rounds that fail, if the next is within the delays, is wanted and opens a track: the
-- pauses are the first `k + 1`, and the track is the result exactly when it is still wanted.
pub reopen_after_failures :
    (ds : List ℕ) (rounds : ℕ → Round) (i k n : ℕ)
    → k < length ds
    → ((j : ℕ) → j < k → IsFailing (rounds (i + j)))
    → (rounds (i + k)).wanted ≡ true
    → (rounds (i + k)).opened ≡ track n
    → ((reopen ds rounds i).result ≡ (if (rounds (i + k)).still_wanted then some n else none))
      × ((reopen ds rounds i).slept ≡ take (suc k) ds)
unfolding reopen attempt
reopen_after_failures [] rounds i k n l h w o = absurd (omega arith)
reopen_after_failures (d ∷ ds) rounds i zero n l h w o =
    let e : i + 0 ≡ i = omega arith in
    let w' : (rounds i).wanted ≡ true = rw e at w in
    let o' : (rounds i).opened ≡ track n = rw e at o in rw e (ground arith)
reopen_after_failures (d ∷ ds) rounds i (suc k) n l h w o =
    let e0 : i + 0 ≡ i = omega arith in
    let fails : IsFailing (rounds i) = rw e0 at (h 0 (omega arith)) in
    let e : suc i + k ≡ i + suc k = omega arith in
    let later =
      reopen_after_failures ds rounds (suc i) k n (omega arith)
        (λ j lt. let e' : suc i + j ≡ i + suc j = omega arith in rw e' (h (suc j) (omega arith)))
        (rw e w) (rw e o) in
    rw (attempt-failing (rounds i) (reopen ds rounds (suc i)) fails, ← e)
      (later.0, ap (λ (x : List ℕ). d ∷ x) later.1)
