-- ===== src/MicRecovery/Tests.antt =====
-- Reopening at concrete inputs.
use sozvon.Base.{ℕ, ◌+◌, ◌<◌, suc, refl, true, inl, arith}
use sozvon.MicRecovery.{Round, other_error, track, reopen, delays}
use sozvon.MicRecovery.Tracks.{IsAccounted, IsFailing, reopen-IsAccounted}

-- One failure, then a track.
abbrev rounds : ℕ → Round
rounds ℕ.zero = record { wanted = true; opened = other_error; still_wanted = true }
rounds (suc i) = record { wanted = true; opened = track 7; still_wanted = true }

reopen-IsAccounted_example : IsAccounted (reopen delays rounds 0)
reopen-IsAccounted_example = reopen-IsAccounted delays rounds 0

rounds_fail : (j : ℕ) → j < 1 → IsFailing (rounds (0 + j))
rounds_fail ℕ.zero h = (refl, inl refl)
rounds_fail (suc j) h = absurd (omega arith)
