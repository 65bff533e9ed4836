-- ===== src/Away/Tests.antt =====
-- The tracker at concrete inputs.
use sozvon.Base.{◌≡◌, refl, true, false, none, some, [], ◌∷◌}
use sozvon.Away.{Tracker, back, hidden, shown, lost}
use sozvon.Away.Attribution.{hides, shows, drops, run, step, back-outage}

machine : Unit {0}
unfolding run step hidden shown lost back
machine = tt

abbrev was_shown : Tracker
was_shown = record { hidden_at = none; shown_at = some 100; outage_away = false; in_outage = false }

back-outage_example : (back (run was_shown (drops 20000 ∷ hides 20500 ∷ shows 30000 ∷ []))).1 ≡ true
unfolding machine
back-outage_example = back-outage was_shown 20000 (hides 20500 ∷ shows 30000 ∷ []) refl refl
