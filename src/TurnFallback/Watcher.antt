-- ===== src/TurnFallback/Watcher.antt =====
-- The watcher of the connections' paths, and the path that a connection uses. A share of lost
-- packets is in millionths; times are milliseconds.
pub mod History
pub mod Memory
use sozvon.Base.{
  units, ℕ, ◌+◌, String, Bool, true, false, ◌&&◌, ◌||◌, Option, none, some, List, [], ◌∷◌, leb,
  if◌then◌else◌, str_eq, lookup, insert, erase,
}
use sozvon.TurnFallback.{Text, same, lower_text}

abbrev pub disconnected_for : ℕ
disconnected_for = 6000

abbrev pub loss_limit : ℕ
loss_limit = 150000

abbrev pub loss_limit_polls : ℕ
loss_limit_polls = 5

pub record CandidatePath : Type 0 where
  pub type : Text
  pub relay : Option Text

-- One object of a report: only the fields that are read, `none` or empty where it has none.
pub record Stat : Type 0 where
  pub id : String
  pub is_transport : Bool
  pub is_pair : Bool
  pub selected_pair_id : String
  pub selected : Bool
  pub local_id : String
  pub candidate_type : Text
  pub relay_protocol : Text
  pub protocol : Text

pub record Scan : Type 0 where
  pub by_id : List (String × Stat)
  pub selected_id : String
  pub fallback_id : String

-- One turn of the loop of `selectedPath`; an id that is absent is the empty text.
unfoldable pub scan : Scan → Stat → Scan
scan s r =
    let by_id = insert r.id r s.by_id in
    if r.is_transport && (if str_eq r.selected_pair_id "" then false else true)
    then record s { by_id = by_id; selected_id = r.selected_pair_id }
    else if r.is_pair && r.selected
    then record s { by_id = by_id; fallback_id = r.id }
    else record s { by_id = by_id }

unfoldable pub scan_all : Scan → List Stat → Scan
unfolding scan
scan_all s [] = s
scan_all s (r ∷ rs) = scan_all (scan s r) rs

unfoldable pub or_null : Text → Option Text
or_null [] = none
or_null (c ∷ s) = some (c ∷ s)

unfoldable pub path_of : Stat → Option CandidatePath
unfolding or_null same
path_of local = elim local.candidate_type [
  | [] ↦ none
  | c ∷ t ↦ elim local.relay_protocol [
    | d ∷ p ↦ some (record { type = units "relay"; relay = some (lower_text (d ∷ p)) })
    | [] ↦ some (record {
      type = c ∷ t;
      relay = or_null (if same (c ∷ t) (units "relay") then [] else lower_text local.protocol);
    })
  ]
]

unfoldable pub local_path : List (String × Stat) → Option Stat → Option CandidatePath
unfolding path_of
local_path by_id none = none
local_path by_id (some pair) = elim (lookup pair.local_id by_id) [
  | none ↦ none
  | some local ↦ path_of local
]

unfoldable pub selected_path : List Stat → Option CandidatePath
unfolding scan_all local_path
selected_path stats =
    let s = scan_all (record { by_id = []; selected_id = ""; fallback_id = "" }) stats in
    local_path s.by_id
      (lookup (if str_eq s.selected_id "" then s.fallback_id else s.selected_id) s.by_id)

-- `iceConnectionState`
pub data Ice : Type 0 where
  connected completed disconnected failed other : Ice

pub record Poll : Type 0 where
  pub ice : Ice
  pub path : Option CandidatePath
  pub loss : Option ℕ

pub record Stream : Type 0 where
  pub path : Option CandidatePath
  pub disconnected_since : Option ℕ
  pub loss_polls : ℕ

abbrev pub new_stream : Stream
new_stream = record { path = none; disconnected_since = none; loss_polls = 0 }

pub data Reason : Type 0 where
  by_failed by_disconnected by_loss : Reason

abbrev pub is_up : Ice → Bool
is_up connected = true
is_up completed = true
is_up _ = false

abbrev pub is_down : Ice → Bool
is_down disconnected = true
is_down _ = false

abbrev pub has_failed : Ice → Bool
has_failed failed = true
has_failed _ = false

abbrev pub next_path : Poll → Option CandidatePath → Option CandidatePath
next_path o old = elim o.path [ none ↦ old | some p ↦ if is_up o.ice then some p else old ]

abbrev pub next_since : Poll → ℕ → Option ℕ → Option ℕ
next_since o now old =
    if is_down o.ice then elim old [ none ↦ some now | some t ↦ some t ] else none

abbrev pub is_lossy : Poll → Bool
is_lossy o = elim o.loss [ none ↦ false | some l ↦ leb loss_limit l && is_up o.ice ]

unfoldable pub on_udp : Option CandidatePath → Bool
unfolding same
on_udp none = false
on_udp (some p) = elim p.relay [ none ↦ false | some r ↦ same r (units "udp") ]

abbrev pub is_past : ℕ → Option ℕ → Bool
is_past now none = false
is_past now (some t) = leb (t + disconnected_for) now

-- The fields of the stream after the poll.
unfoldable pub note : Poll → ℕ → Stream → Stream
note o now s = record {
  path = next_path o s.path;
  disconnected_since = next_since o now s.disconnected_since;
  loss_polls = if is_lossy o then s.loss_polls + 1 else 0;
}

-- The answer, from the stream after the poll.
unfoldable pub judge : Poll → ℕ → Stream → Option Reason
unfolding on_udp
judge o now s =
    if on_udp s.path
    then if has_failed o.ice
      then some by_failed
      else if is_past now s.disconnected_since
      then some by_disconnected
      else if leb loss_limit_polls s.loss_polls
      then some by_loss
      else none
    else none

abbrev pub Watcher : Type 0
Watcher = List (String × Stream)

unfoldable pub stream_of : Option Stream → Stream
stream_of none = new_stream
stream_of (some s) = s

unfoldable pub update : String → Poll → ℕ → Watcher → Watcher × Option Reason
unfolding note judge stream_of
update id o now w = let s = note o now (stream_of (lookup id w)) in (insert id s w, judge o now s)

unfoldable pub forget : String → Watcher → Watcher
forget id w = erase id w
