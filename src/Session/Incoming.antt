-- ===== src/Session/Incoming.antt =====
-- static/protocol.js, `gotMessage`: what the session does with a message from the server.
use sozvon.Base.{
  ℕ, ◌+◌, String, Bool, true, false, Option, none, some, List, [], ◌∷◌, if◌then◌else◌, str_eq, not,
  ◌&&◌, ◌||◌, any, units,
}
use sozvon.Signalling.{Message, counted, Argument, after}
use sozvon.Session.State.{
  Session, Outgoing, numbered, Other, offer, answer, renegotiate, close_stream, abort, ice, chat,
  chat_history, user_message, unexpected, on_connected, on_resumed, handles, call, is_some,
  is_socket,
}
use sozvon.Session.Sending.{close_socket, fail_with, transmit, send}
use sozvon.Session.Sockets.{gone, stop_resuming}
use sozvon.Session.Members
use sozvon.Session.Members.{Joined, UserMessage}

-- `rubbish` is no JSON. The values are none where they are not of the type that is wanted.
pub data Incoming : Type 0 where
  rubbish ping pong : Incoming
  handshake : Option (List String) → Incoming
  session network : Option String → Incoming
  resumed : Argument → Incoming
  joined : Joined → Incoming
  user : UserMessage → Incoming
  other : Other → Incoming

unfoldable pub type_of_other : Other → String
type_of_other offer = "offer"
type_of_other answer = "answer"
type_of_other renegotiate = "renegotiate"
type_of_other close_stream = "close"
type_of_other abort = "abort"
type_of_other ice = "ice"
type_of_other chat = "chat"
type_of_other chat_history = "chathistory"
type_of_other user_message = "usermessage"
type_of_other unexpected = ""

unfoldable pub type_of : Incoming → String
unfolding type_of_other
type_of rubbish = ""
type_of ping = "ping"
type_of pong = "pong"
type_of (handshake v) = "handshake"
type_of (session v) = "sozvon-session"
type_of (network v) = "sozvon-network"
type_of (resumed a) = "sozvon-resumed"
type_of (joined m) = "joined"
type_of (user m) = "user"
type_of (other o) = type_of_other o

abbrev pub pong_message : Outgoing
pong_message = record { type = "pong"; text = units "{\"type\":\"pong\"}" }

-- `version instanceof Array && version.includes('2')`
abbrev pub speaks_two : Option (List String) → Bool
speaks_two none = false
speaks_two (some vs) = any (str_eq "2") vs

unfoldable pub got_handshake : Option (List String) → Session → Session
unfolding fail_with
got_handshake v s =
    if speaks_two v
    then if is_some s.resuming
      then record s { greeted = true }
      else call on_connected (record s { greeted = true })
    else fail_with (record s { greeted = false })

unfoldable pub replay : ℕ → List Message → Session → Session
unfolding transmit
replay k [] s = s
replay k (m ∷ ms) s = replay k ms (transmit k (numbered m) s)

unfoldable pub cannot_resume : ℕ → Session → Session
cannot_resume k s = gone 1006 (close_socket (some k) (record s { current = none }))

-- Where there is no log the source throws.
unfoldable pub got_resumed : ℕ → Argument → Session → Session
got_resumed k a s = elim s.resuming [
  | none ↦ s
  | some r ↦ elim s.sent_log [
    | none ↦ s
    | some log ↦ elim (after log a) [
      | none ↦ cannot_resume k s
      | some rest ↦ call on_resumed (replay k rest (stop_resuming s))
    ]
  ]
]

unfoldable pub dispatch : ℕ → Incoming → Session → Session
dispatch k rubbish s = s
dispatch k (handshake v) s = got_handshake v s
dispatch k (session none) s = s
dispatch k (session (some secret)) s = record s {
  resume_secret = if is_some s.sent_log then some secret else s.resume_secret;
}
dispatch k (network none) s = s
dispatch k (network (some n)) s = record s { member = record s.member { network = some n } }
dispatch k (resumed a) s = got_resumed k a s
dispatch k (joined m) s = Members.joined m s
dispatch k (user m) s = Members.user_message m s
dispatch k (other o) s = call (handles o) s
dispatch k ping s = (send pong_message s).0
dispatch k pong s = s

abbrev pub is_rubbish : Incoming → Bool
is_rubbish rubbish = true
is_rubbish _ = false

abbrev pub is_handshake : Incoming → Bool
is_handshake (handshake v) = true
is_handshake _ = false

-- What is noted of every message.
unfoldable pub note : Incoming → ℕ → Session → Session
unfolding type_of
note m now s = record s {
  last_server_message = some now;
  received = if is_some s.sent_log && counted (type_of m) then s.received + 1 else s.received;
}

unfoldable pub got_message : ℕ → Incoming → ℕ → Session → Session
got_message k m now s =
    if is_rubbish m || (not (is_handshake m) && not s.greeted)
    then fail_with s
    else dispatch k m (note m now s)

unfoldable pub on_message : ℕ → Incoming → ℕ → Session → Session
on_message k m now s = if s.closed || not (is_socket k s.current) then s else got_message k m now s
