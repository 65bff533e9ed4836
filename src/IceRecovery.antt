-- ===== src/IceRecovery.antt =====
-- static/ice-recovery.js: when a connection is restarted after the network changed. Times are
-- milliseconds; `now - t < d` is written `now < t + d`.
pub mod Spacing
pub mod Outage
pub mod Tests
use sozvon.Base.{
  ℕ, ◌+◌, String, Bool, true, false, ◌&&◌, Option, none, some, List, [], ◌∷◌, ltb, leb,
  if◌then◌else◌, lookup, insert, erase,
}

abbrev pub disconnected_for : ℕ
disconnected_for = 8000

abbrev pub suspect_for : ℕ
suspect_for = 15000

abbrev pub min_gap : ℕ
min_gap = 5000

-- `iceConnectionState`
pub data IceState : Type 0 where
  new checking connected completed disconnected failed closed : IceState

pub record Stream : Type 0 where
  pub disconnected_since : Option ℕ
  pub restarted_at : Option ℕ

abbrev pub fresh : Stream
fresh = record { disconnected_since = none; restarted_at = none }

pub record Recovery : Type 0 where
  pub streams : List (String × Stream)
  pub suspect_until : ℕ

abbrev pub start : Recovery
start = record { streams = []; suspect_until = 0 }

pub data Reason : Type 0 where
  resumed disconnected_long : Reason

unfoldable pub resume : ℕ → Recovery → Recovery
resume now r = record r { suspect_until = now + suspect_for }

abbrev pub or_fresh : Option Stream → Stream
or_fresh none = fresh
or_fresh (some s) = s

unfoldable pub observe : IceState → ℕ → Stream → Stream
observe disconnected now s = record s {
  disconnected_since = elim s.disconnected_since [ none ↦ some now | some t ↦ some t ];
}
observe connected now s = record s { disconnected_since = none; restarted_at = none }
observe completed now s = record s { disconnected_since = none; restarted_at = none }
observe _ now s = record s { disconnected_since = none }

abbrev pub is_disconnected : IceState → Bool
is_disconnected disconnected = true
is_disconnected _ = false

-- Restarted less than `min_gap` ago.
unfoldable pub too_soon : ℕ → Option ℕ → Bool
too_soon now none = false
too_soon now (some t) = ltb now (t + min_gap)

unfoldable pub long_enough : ℕ → Option ℕ → Bool
long_enough now none = false
long_enough now (some t) = leb (t + disconnected_for) now

unfoldable pub judge : ℕ → IceState → ℕ → Stream → Option Reason
unfolding long_enough
judge suspect_until state now s =
    if ltb now suspect_until && is_disconnected state
    then some resumed
    else if long_enough now s.disconnected_since
    then some disconnected_long
    else none

unfoldable pub decide : ℕ → IceState → ℕ → Stream → Stream × Option Reason
unfolding too_soon judge
decide suspect_until state now s =
    if too_soon now s.restarted_at then (s, none) else elim (judge suspect_until state now s) [
      | none ↦ (s, none)
      | some why ↦ (record { disconnected_since = none; restarted_at = some now }, some why)
    ]

-- The method `update`: the new state, and why the connection is to be restarted, if it is.
unfoldable pub update : String → IceState → ℕ → Recovery → Recovery × Option Reason
unfolding observe decide
update id state now r =
    let d = decide r.suspect_until state now (observe state now (or_fresh (lookup id r.streams))) in
    (record r { streams = insert id d.0 r.streams }, d.1)

unfoldable pub restarted : String → ℕ → Recovery → Recovery
restarted id now r = record r {
  streams = insert id (record { disconnected_since = none; restarted_at = some now }) r.streams;
}

unfoldable pub forget : String → Recovery → Recovery
forget id r = record r { streams = erase id r.streams }
