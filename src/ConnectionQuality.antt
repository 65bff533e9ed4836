-- ===== src/ConnectionQuality.antt =====
-- static/connection-quality.js: the quality of a connection from its statistics. A share of packets
-- is in millionths and a time of the statistics in microseconds, both rounded down: the limits are
-- whole, so that rounding does not change a comparison with them.
pub mod Tracker
pub mod Tests
use sozvon.Base.{
  ℕ, ◌+◌, ◌-◌, ◌*◌, ◌/◌, max, Bool, true, false, ◌&&◌, ◌||◌, not, Option, none, some, List, [], ◌∷◌,
  ltb, leb, ◌==◌, if◌then◌else◌,
}

pub data Level : Type 0 where
  good weak bad lost : Level

pub record Limits : Type 0 where
  pub loss : ℕ
  pub rtt : ℕ
  pub jitter : ℕ

abbrev pub weak_limits : Limits
weak_limits = record { loss = 30000; rtt = 350000; jitter = 50000 }

abbrev pub bad_limits : Limits
bad_limits = record { loss = 100000; rtt = 800000; jitter = 150000 }

abbrev pub min_packets : ℕ
min_packets = 20

abbrev pub worsen_after : ℕ
worsen_after = 2

abbrev pub improve_after : ℕ
improve_after = 3

abbrev pub rank : Level → ℕ
rank good = 0
rank weak = 1
rank bad = 2
rank lost = 3

-- The loop of `worst`; an absent level is `none`.
unfoldable pub worst : Level → List (Option Level) → Level
worst w [] = w
worst w (none ∷ ls) = worst w ls
worst w (some l ∷ ls) = worst (if ltb (rank w) (rank l) then l else w) ls

-- `packetsLost` may be negative.
pub data Count : Type 0 where
  count : ℕ → Count
  below_zero absent : Count

abbrev pub at_least_zero : Count → ℕ
at_least_zero (count n) = n
at_least_zero below_zero = 0
at_least_zero absent = 0

-- The objects of a report, by the fields that are read; an absent number is 0.
pub data Stat : Type 0 where
  -- `packetsReceived`, `packetsLost`, `jitter`
  inbound_rtp : ℕ → Count → ℕ → Stat
  -- `fractionLost`, `roundTripTime`
  remote_inbound_rtp : ℕ → ℕ → Stat
  -- whether it is nominated and succeeded, `currentRoundTripTime`
  candidate_pair : Bool → Option ℕ → Stat
  other_stat : Stat

pub record Snapshot : Type 0 where
  pub time : ℕ
  pub received : ℕ
  pub lost_packets : ℕ
  pub jitter : ℕ
  pub inbound : Bool
  pub remote_loss : ℕ
  pub remote_rtt : ℕ
  pub outbound : Bool
  pub rtt : ℕ

abbrev pub empty_snapshot : ℕ → Snapshot
empty_snapshot now = record {
  time = now;
  received = 0;
  lost_packets = 0;
  jitter = 0;
  inbound = false;
  remote_loss = 0;
  remote_rtt = 0;
  outbound = false;
  rtt = 0;
}

unfoldable pub take_stat : Snapshot → Stat → Snapshot
take_stat s (inbound_rtp received missing jitter) = record s {
  inbound = true;
  received = s.received + received;
  lost_packets = s.lost_packets + at_least_zero missing;
  jitter = max s.jitter jitter;
}
take_stat s (remote_inbound_rtp loss rtt) = record s {
  outbound = true;
  remote_loss = max s.remote_loss loss;
  remote_rtt = max s.remote_rtt rtt;
}
take_stat s (candidate_pair true (some rtt)) = record s { rtt = max s.rtt rtt }
take_stat s (candidate_pair _ _) = s
take_stat s other_stat = s

unfoldable pub take_stats : Snapshot → List Stat → Snapshot
unfolding take_stat
take_stats s [] = s
take_stats s (r ∷ rs) = take_stats (take_stat s r) rs

unfoldable pub snapshot : List Stat → ℕ → Snapshot
unfolding take_stats
snapshot report now = take_stats (empty_snapshot now) report

pub record Assessment : Type 0 where
  pub level : Option Level
  pub loss : ℕ
  pub rtt : ℕ
  pub jitter : ℕ

-- The share of packets lost since the snapshot before, if enough were to come.
unfoldable pub interval_loss : Option Snapshot → Snapshot → Option ℕ
interval_loss none cur = none
interval_loss (some prev) cur =
    let received = cur.received - prev.received in
    let missing = cur.lost_packets - prev.lost_packets in
    if cur.inbound
      && leb prev.received cur.received
      && leb prev.lost_packets cur.lost_packets
      && leb min_packets (received + missing)
    then some (missing * 1000000 / (received + missing))
    else none

abbrev pub or_zero : Option ℕ → ℕ
or_zero none = 0
or_zero (some n) = n

abbrev pub is_some : Option ℕ → Bool
is_some none = false
is_some (some n) = true

unfoldable pub reaches : Limits → ℕ → ℕ → ℕ → Bool
reaches l loss rtt jitter = leb l.loss loss || leb l.rtt rtt || leb l.jitter jitter

unfoldable pub level_of : ℕ → ℕ → ℕ → Level
unfolding reaches
level_of loss rtt jitter =
    if reaches bad_limits loss rtt jitter
    then bad
    else if reaches weak_limits loss rtt jitter
    then weak
    else good

unfoldable pub assess : Option Snapshot → Snapshot → Assessment
unfolding interval_loss level_of
assess prev cur =
    let rtt = max cur.rtt cur.remote_rtt in
    let own = interval_loss prev cur in
    let loss = if cur.outbound then max (or_zero own) cur.remote_loss else or_zero own in
    let jitter = if cur.inbound then cur.jitter else 0 in
    let judged = is_some own || cur.outbound || ltb 0 rtt in
    record {
      level = if judged then some (level_of loss rtt jitter) else none;
      loss = loss;
      rtt = rtt;
      jitter = jitter;
    }
