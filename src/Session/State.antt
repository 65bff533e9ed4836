-- ===== src/Session/State.antt =====
-- static/protocol.js: the fields of `ServerConnection` that the session uses, with the variables of
-- `connect`. The browser's websockets are numbered in the order in which they were made.
use sozvon.Base.{
  ℕ, String, Bool, true, false, Option, none, some, List, [], ◌∷◌, ◌==◌, if◌then◌else◌, str_eq, not,
}
use sozvon.Signalling.{Message, SentLog}

-- `readyState`
pub data Ready : Type 0 where
  connecting opened closing shut : Ready

abbrev pub is_open : Ready → Bool
is_open opened = true
is_open _ = false

abbrev pub is_live : Ready → Bool
is_live connecting = true
is_live opened = true
is_live _ = false

-- A message to the server, with its JSON text.
pub record Outgoing : Type 0 where
  pub type : String
  pub text : Message

-- The `kind` of the client's handshake, with its `value`.
pub data Hello : Type 0 where
  plain resumable : Hello
  resuming_with : Option String → ℕ → Hello

-- What goes out on a socket: a handshake, a message that both sides number, any other.
pub data Frame : Type 0 where
  hello : Hello → Frame
  numbered bare : Message → Frame

pub data TimerKind : Type 0 where
  attempt : ℕ → TimerKind
  pause : TimerKind
  -- The timer fired and did nothing.
  spent : TimerKind

pub record Timer : Type 0 where
  pub kind : TimerKind
  pub due : ℕ

pub record Resuming : Type 0 where
  pub since : ℕ
  pub timer : Option Timer

pub record User : Type 0 where
  pub username : Option String
  pub permissions : List String
  pub details : Option String

pub record Member : Type 0 where
  pub users : List (String × User)
  pub group : Option String
  pub username : Option String
  pub permissions : List String
  pub rtc_configuration : Option String
  pub network : Option String

pub data JoinKind : Type 0 where
  join change leave fail rejoin knock deny other_kind : JoinKind

pub data UserKind : Type 0 where
  add changed delete knocking knock_cancel knock_refused unknown : UserKind

-- The messages that the streams, the chat and the file transfers handle; `unexpected` is a type
-- that the client does not know.
pub data Other : Type 0 where
  offer answer renegotiate close_stream abort ice chat chat_history user_message unexpected : Other

-- The callbacks, and what is handed to the other parts of `ServerConnection`.
pub data Call : Type 0 where
  on_error on_before_close closes_streams on_connected on_resumed rejoins : Call
  on_user : String → UserKind → Call
  on_joined : JoinKind → Option String → Call
  on_knock : String → Bool → Call
  on_knock_refused : String → Call
  transfers_fail : String → Call
  handles : Other → Call
  on_close : ℕ → Call

-- `current` and `closed` are variables of `connect`. `ready` and `made` are the browser's; `wire`
-- is what went out and on which socket, `accepted` what `sentLog.push` was called with, `calls` the
-- callbacks made. `wire` and `calls` have the latest first.
pub record Session : Type 0 where
  pub sent_log : Option SentLog
  pub socket : Option ℕ
  pub current : Option ℕ
  pub ready : ℕ → Ready
  pub made : ℕ
  pub closed : Bool
  pub leaving : Bool
  pub resume_secret : Option String
  pub resuming : Option Resuming
  pub received : ℕ
  pub greeted : Bool
  pub last_server_message : Option ℕ
  pub started : ℕ
  pub ping_handler : Bool
  pub member : Member
  pub wire : List (ℕ × Frame)
  pub accepted : List Message
  pub calls : List Call

abbrev pub nobody : Member
nobody = record {
  users = [];
  group = none;
  username = none;
  permissions = [];
  rtc_configuration = none;
  network = none;
}

-- The constructor: `log` is none where signalling-resume.js is not loaded.
abbrev pub unconnected : Option SentLog → Session
unconnected log = record {
  sent_log = log;
  socket = none;
  current = none;
  ready = λ _. shut;
  made = 0;
  closed = false;
  leaving = false;
  resume_secret = none;
  resuming = none;
  received = 0;
  greeted = false;
  last_server_message = none;
  started = 0;
  ping_handler = false;
  member = nobody;
  wire = [];
  accepted = [];
  calls = [];
}

-- A text or null as a condition.
abbrev pub truthy : Option String → Bool
truthy none = false
truthy (some t) = not (str_eq t "")

abbrev pub is_some {ℓ} : {A : Type ℓ} → Option A → Bool
is_some none = false
is_some (some a) = true

-- `s === current`
abbrev pub is_socket : ℕ → Option ℕ → Bool
is_socket k none = false
is_socket k (some j) = k == j

abbrev pub set_ready : ℕ → Ready → (ℕ → Ready) → ℕ → Ready
set_ready k r f j = if k == j then r else f j

abbrev pub call : Call → Session → Session
call c s = record s { calls = c ∷ s.calls }
