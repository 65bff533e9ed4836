-- ===== src/Signalling/Tests.antt =====
-- The log of static/signalling-resume.js at concrete inputs.
use sozvon.Base.{◌≡◌, refl, ◌≤◌, ℕ, ◌++◌, some, List, [], ◌∷◌, length, take}
use sozvon.Signalling.{Message, new, push, trim, too_much, after, whole}
use sozvon.Signalling.Replay.{push_all, replay_exact}

machine : Unit {0}
unfolding push trim too_much after push_all
machine = tt

abbrev three : List Message
three = (1 ∷ []) ∷ (2 ∷ 2 ∷ []) ∷ (3 ∷ []) ∷ []

answered : after (push_all new three) (whole 2) ≡ some ((3 ∷ []) ∷ [])
unfolding machine
answered = refl

replay_exact_example :
    (n : ℕ) × (whole 2 ≡ whole n) × (take n three ++ ((3 ∷ []) ∷ []) ≡ three) × (n ≤ length three)
replay_exact_example = replay_exact three (whole 2) ((3 ∷ []) ∷ []) answered
