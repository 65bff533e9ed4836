-- ===== src/Away/Attribution.antt =====
-- What `back` answers, from the events since the page was opened.
use sozvon.Base.{ℕ, ◌≡◌, refl, Bool, true, false, ◌||◌, List, [], ◌∷◌, arith}
use sozvon.Away.{Tracker, hidden, shown, lost, back, is_some, within_grace}

pub data Event : Type 0 where
  hides shows drops : ℕ → Event
  returns : Event

unfoldable pub step : Tracker → Event → Tracker
step t (hides now) = hidden now t
step t (shows now) = shown now t
step t (drops now) = lost now t
step t returns = (back t).0

unfoldable pub run : Tracker → List Event → Tracker
run t [] = t
run t (e ∷ es) = run (step t e) es

-- An event of an outage: the page is hidden or shown, or the connection is lost once more.
abbrev pub during : List Event → Bool
during [] = true
during (returns ∷ es) = false
during (e ∷ es) = during es

abbrev pub any_hides : List Event → Bool
any_hides [] = false
any_hides (hides now ∷ es) = true
any_hides (e ∷ es) = any_hides es

outage-run :
    (es : List Event) (t : Tracker)
    → t.in_outage ≡ true
    → during es ≡ true
    → (back (run t es)).1 ≡ (t.outage_away || any_hides es)
unfolding run step hidden shown lost back
outage-run [] t e d = ground arith
outage-run (hides now ∷ es) t e d = ground (arith, outage-run es (hidden now t))
outage-run (shows now ∷ es) t e d = ground (arith, outage-run es (shown now t))
outage-run (drops now ∷ es) t e d = ground (arith, outage-run es (lost now t))
outage-run (returns ∷ es) t e d = cc

-- With no interruption under way before it is lost, a reconnect is put down to the background exactly when the page was hidden as the connection
-- was lost, or had come back less than `return_grace` before, or was hidden before the call came
-- back.
pub back-outage :
    (t : Tracker) (now : ℕ) (es : List Event)
    → t.in_outage ≡ false
    → during es ≡ true
    → (back (run t (drops now ∷ es))).1
      ≡ (is_some t.hidden_at || within_grace now t.shown_at || any_hides es)
unfolding run step lost
back-outage t now es e d = ground (arith, outage-run es (lost now t))

abbrev pub any_drops : List Event → Bool
any_drops [] = false
any_drops (drops now ∷ es) = true
any_drops (e ∷ es) = any_drops es

no_outage-run :
    (es : List Event) (t : Tracker)
    → t.in_outage ≡ false
    → any_drops es ≡ false
    → (back (run t es)).1 ≡ false
unfolding run step hidden shown back
no_outage-run [] t e d = ground arith
no_outage-run (hides now ∷ es) t e d = no_outage-run es (hidden now t) e d
no_outage-run (shows now ∷ es) t e d = no_outage-run es (shown now t) e d
no_outage-run (drops now ∷ es) t e d = cc
no_outage-run (returns ∷ es) t e d = no_outage-run es (back t).0 refl d

-- The answer is given once: after `back`, no `back` says yes again before the connection is lost
-- again, whatever the page does.
pub back_once :
    (t : Tracker) (es : List Event) → any_drops es ≡ false → (back (run (back t).0 es)).1 ≡ false
unfolding back
back_once t es d = no_outage-run es (back t).0 refl d
