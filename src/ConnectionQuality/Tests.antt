-- ===== src/ConnectionQuality/Tests.antt =====
-- The tracker at concrete inputs.
use sozvon.Base.{◌≡◌, ◌≢◌, refl, true, none, some, [], ◌∷◌}
use sozvon.ConnectionQuality.{
  good, bad, worst, take_stat, take_stats, snapshot, Snapshot, inbound_rtp, count, below_zero,
  candidate_pair, interval_loss, reaches, level_of, assess,
}
use sozvon.ConnectionQuality.Tracker.{
  Tracker, new, connected, failed, sample, restore, settle, give_up, follow, update, changed,
}
use sozvon.ConnectionQuality.Tracker.Course.{Poll, Changes, run, raws, update-Changes}

machine : Unit {0}
unfolding worst take_stat take_stats snapshot interval_loss reaches level_of assess sample restore
    settle give_up follow update changed
machine = tt

-- A round trip of a second.
abbrev slow : Snapshot
slow = snapshot (candidate_pair true (some 1000000) ∷ []) 2000

abbrev quick : Snapshot
quick = snapshot (candidate_pair true (some 40000) ∷ []) 4000

abbrev settled_bad : Tracker
settled_bad = record { level = bad; prev = none; pending = none; count = 0; last = none }

duplicates :
    (snapshot (inbound_rtp 100 below_zero 0 ∷ inbound_rtp 50 (count 3) 0 ∷ []) 0).lost_packets ≡ 3
unfolding machine
duplicates = refl

abbrev slow_poll : Poll
slow_poll = (connected, some slow)

update-Changes_example :
    Changes connected
      (run (slow_poll ∷ []))
      (update connected (some slow) (run (slow_poll ∷ [])))
      (raws (slow_poll ∷ slow_poll ∷ []))
update-Changes_example = update-Changes connected (some slow) (slow_poll ∷ [])

settles : (run (slow_poll ∷ slow_poll ∷ [])).level ≡ bad
unfolding machine run
settles = refl

up : connected ≢ failed
up = λ e. cc

slow_once : (sample connected (some slow) new).1 ≡ some bad
unfolding machine
slow_once = refl

slow_twice : (sample connected (some slow) (update connected (some slow) new)).1 ≡ some bad
unfolding machine
slow_twice = refl

abbrev once : Tracker
once = update connected (some quick) settled_bad

abbrev twice : Tracker
twice = update connected (some quick) once

quick_once : (sample connected (some quick) settled_bad).1 ≡ some good
unfolding machine
quick_once = refl

quick_twice : (sample connected (some quick) once).1 ≡ some good
unfolding machine
quick_twice = refl

quick_thrice : (sample connected (some quick) twice).1 ≡ some good
unfolding machine
quick_thrice = refl
