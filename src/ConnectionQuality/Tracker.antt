-- ===== src/ConnectionQuality/Tracker.antt =====
-- The tracker of one connection: the settled level, and what waits to become it.
pub mod Settling
pub mod Hysteresis
pub mod Course
use sozvon.Base.{ℕ, ◌+◌, Bool, true, false, not, Option, none, some, ltb, leb, ◌==◌, if◌then◌else◌}
use sozvon.ConnectionQuality.{
  Level, good, lost, rank, Snapshot, Assessment, assess, worsen_after, improve_after,
}

-- `iceConnectionState`
pub data Ice : Type 0 where
  connected completed disconnected failed other : Ice

pub record Tracker : Type 0 where
  pub level : Level
  pub prev : Option Snapshot
  pub pending : Option Level
  pub count : ℕ
  pub last : Option Assessment

abbrev pub new : Tracker
new = record { level = good; prev = none; pending = none; count = 0; last = none }

abbrev pub is_up : Ice → Bool
is_up connected = true
is_up completed = true
is_up _ = false

abbrev pub is_lost : Level → Bool
is_lost l = rank l == 3

-- The middle of `update`: the raw level of this poll.
unfoldable pub sample : Ice → Option Snapshot → Tracker → Tracker × Option Level
unfolding assess
sample disconnected snap t =
    (record t { prev = none; last = none }, if is_lost t.level then none else some lost)
sample _ none t = (t, none)
sample _ (some s) t =
    let a = assess t.prev s in (record t { prev = some s; last = some a }, a.level)

abbrev pub or_good : Option Level → Level
or_good none = good
or_good (some l) = l

-- From `lost`, as soon as ICE is up.
unfoldable pub restore : Ice → Option Level → Tracker → Tracker
restore ice raw t =
    if is_up ice then record t { level = or_good raw; pending = none; count = 0 } else t

abbrev pub same_level : Level → Level → Bool
same_level a b = rank a == rank b

abbrev pub is_pending : Level → Option Level → Bool
is_pending l none = false
is_pending l (some p) = same_level l p

abbrev pub needed : Level → Level → ℕ
needed level raw = if ltb (rank level) (rank raw) then worsen_after else improve_after

unfoldable pub settle : Option Level → Tracker → Tracker
settle none t = record t { pending = none; count = 0 }
settle (some raw) t =
    if same_level raw t.level
    then record t { pending = none; count = 0 }
    else (let n = (if is_pending raw t.pending then t.count else 0) + 1 in
        if leb (needed t.level raw) n
        then record t { level = raw; pending = none; count = 0 }
        else record t { pending = some raw; count = n })

unfoldable pub give_up : Tracker → Tracker
give_up t = record t { level = lost; prev = none; last = none; pending = none; count = 0 }

unfoldable pub follow : Ice → Tracker × Option Level → Tracker
unfolding restore settle
follow ice s = if is_lost s.0.level then restore ice s.1 s.0 else settle s.1 s.0

-- The settled level is that of the result; `changed` is whether it is another than before.
unfoldable pub update : Ice → Option Snapshot → Tracker → Tracker
unfolding sample follow give_up
update failed snap t = give_up t
update ice snap t = follow ice (sample ice snap t)

unfoldable pub changed : Tracker → Tracker → Bool
changed before after = not (same_level before.level after.level)
