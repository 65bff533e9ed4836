-- ===== src/Away.antt =====
-- static/away.js: whether the page being in the background is what interrupted a call.
pub mod Attribution
pub mod Tests
use sozvon.Base.{ℕ, ◌+◌, Bool, true, false, ◌&&◌, ◌||◌, Option, none, some, ltb, if◌then◌else◌}

abbrev pub return_grace : ℕ
return_grace = 15000

pub record Environment : Type 0 where
  pub touch_points : ℕ
  pub coarse : Bool

unfoldable pub pauses_when_hidden : Option Environment → Bool
pauses_when_hidden none = false
pauses_when_hidden (some env) = ltb 0 env.touch_points && env.coarse

pub record Tracker : Type 0 where
  pub hidden_at : Option ℕ
  pub shown_at : Option ℕ
  pub outage_away : Bool
  pub in_outage : Bool

abbrev pub new : Tracker
new = record { hidden_at = none; shown_at = none; outage_away = false; in_outage = false }

unfoldable pub hidden : ℕ → Tracker → Tracker
hidden now t = record t {
  hidden_at = some now;
  outage_away = if t.in_outage then true else t.outage_away;
}

unfoldable pub shown : ℕ → Tracker → Tracker
shown now t = record t { hidden_at = none; shown_at = some now }

unfoldable pub is_some : Option ℕ → Bool
is_some none = false
is_some (some n) = true

unfoldable pub within_grace : ℕ → Option ℕ → Bool
within_grace now none = false
within_grace now (some t) = ltb now (t + return_grace)

unfoldable pub lost : ℕ → Tracker → Tracker
unfolding is_some within_grace
lost now t = if t.in_outage then t else record t {
  in_outage = true;
  outage_away = is_some t.hidden_at || within_grace now t.shown_at;
}

-- The new state, and whether the background is what interrupted the call.
unfoldable pub back : Tracker → Tracker × Bool
back t = (record t { in_outage = false; outage_away = false }, t.in_outage && t.outage_away)
