-- ===== src/MicRecovery.antt =====
-- static/mic-recovery.js: reopening a microphone that dropped out. What the browser and the page
-- answer is given round by round; time is the list of the pauses made.
pub mod Tracks
pub mod Tests
use sozvon.Base.{ℕ, Bool, true, false, Option, none, some, List, [], ◌∷◌, if◌then◌else◌}

abbrev pub delays : List ℕ
delays = 300 ∷ 1000 ∷ 2000 ∷ 3000 ∷ 4000 ∷ []

-- A track is its number.
pub data Opened : Type 0 where
  -- `open` threw `NotAllowedError`, or something else
  not_allowed other_error : Opened
  no_track : Opened
  track : ℕ → Opened

-- One round: whether the track is wanted after the pause, what opening it gives, and whether it
-- is still wanted then.
pub record Round : Type 0 where
  pub wanted : Bool
  pub opened : Opened
  pub still_wanted : Bool

pub record Outcome : Type 0 where
  pub result : Option ℕ
  pub stopped : List ℕ
  pub slept : List ℕ
  -- the tracks that the browser opened
  pub tracks : List ℕ

abbrev pub give_up : Outcome
give_up = record { result = none; stopped = []; slept = []; tracks = [] }

-- What a round does, given what the rest of the loop would do.
unfoldable pub attempt : Round → Outcome → Outcome
attempt r rest =
    if r.wanted
    then (elim r.opened [
      | not_allowed ↦ give_up
      | other_error ↦ rest
      | no_track ↦ rest
      | track n ↦
          if r.still_wanted
          then record { result = some n; stopped = []; slept = []; tracks = n ∷ [] }
          else record { result = none; stopped = n ∷ []; slept = []; tracks = n ∷ [] }
    ])
    else give_up

-- `rounds i` is what happens in round i.
unfoldable pub reopen : List ℕ → (ℕ → Round) → ℕ → Outcome
unfolding attempt
reopen [] rounds i = give_up
reopen (d ∷ ds) rounds i =
    let rest = reopen ds rounds (ℕ.suc i) in
    let o = attempt (rounds i) rest in record o { slept = d ∷ o.slept }
