-- ===== src/Bitrate.antt =====
-- static/bitrate-control.js: the caps that receivers ask a sender to keep its video under. `Caps` is
-- the sender's side, `Controller` the receiver's. Times are milliseconds; rates are bits per second.
pub mod Caps
pub mod Controller
use sozvon.Base.{
  ℕ, ◌+◌, ◌*◌, ◌/◌, ◌-◌, max, min, Bool, true, false, Option, none, some, ltb, leb, ◌==◌,
  if◌then◌else◌,
}

abbrev pub min_cap : ℕ
min_cap = 150000

abbrev pub max_cap : ℕ
max_cap = 100000000

abbrev pub refresh : ℕ
refresh = 10000

abbrev pub ttl : ℕ
ttl = 35000

-- A value that may come from another client: a positive or zero number, in thousandths, or
-- another.
pub data Value : Type 0 where
  amount : ℕ → Value
  negative not_finite not_number : Value

-- `Math.round` of a number in thousandths.
abbrev pub round : ℕ → ℕ
round m = (m + 500) / 1000

unfoldable pub sanitize_cap : Value → Option ℕ
sanitize_cap (amount m) =
    if m == 0 then none else if ltb (max_cap * 1000) m then none else some (max min_cap (round m))
sanitize_cap _ = none

-- The user's own setting, where `none` is unlimited and a value that is not positive is 0.
unfoldable pub combine : Option ℕ → Option ℕ → Option ℕ
combine setting none = setting
combine none (some cap) = some cap
combine (some setting) (some cap) = if setting == 0 then some cap else some (min setting cap)
