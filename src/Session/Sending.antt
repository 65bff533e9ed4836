-- ===== src/Session/Sending.antt =====
-- static/protocol.js: `close`, `error` and `send` of `ServerConnection`.
use sozvon.Base.{
  ℕ, Bool, true, false, Option, none, some, [], ◌∷◌, ◌++◌, if◌then◌else◌, not, ◌&&◌, ◌||◌,
}
use sozvon.Signalling.{SentLog, counted, push}
use sozvon.Session.State.{
  Session, Outgoing, Frame, numbered, bare, closing, is_open, is_live, truthy, is_some, set_ready,
  call, on_error,
}

-- `close` of a websocket.
unfoldable pub close_socket : Option ℕ → Session → Session
close_socket none s = s
close_socket (some k) s = record s {
  ready = if is_live (s.ready k) then set_ready k closing s.ready else s.ready;
}

unfoldable pub close : Session → Session
unfolding close_socket
close s = record (close_socket s.socket s) { leaving = true; socket = none }

unfoldable pub fail_with : Session → Session
unfolding close
fail_with s = close (call on_error s)

-- `send` of a websocket that is no longer connecting: what is given to one that is going down is
-- lost.
unfoldable pub transmit : ℕ → Frame → Session → Session
transmit k f s = record s { wire = if is_open (s.ready k) then (k, f) ∷ s.wire else s.wire }

unfoldable pub frame_of : Outgoing → Frame
frame_of m = if counted m.type then numbered m.text else bare m.text

-- The second half of `send`; the Boolean says whether it throws.
unfoldable pub send_plain : Outgoing → Session → Session × Bool
unfolding transmit frame_of
send_plain m s = elim s.socket [
  | none ↦ (s, true)
  | some k ↦ if is_open (s.ready k) then (transmit k (frame_of m) s, false) else (s, true)
]

unfoldable pub send_logged : ℕ → SentLog → Outgoing → Session → Session × Bool
unfolding transmit frame_of
send_logged k log m s =
    if not (is_open (s.ready k)) && not (truthy s.resume_secret)
    then (s, true)
    else let kept : Session = record s {
      sent_log = some (push log m.text);
      accepted = s.accepted ++ m.text ∷ [];
    } in
      if is_some s.resuming || not (is_open (s.ready k))
      then (kept, false)
      else (transmit k (frame_of m) kept, false)

unfoldable pub send : Outgoing → Session → Session × Bool
send m s = elim s.socket [
  | none ↦ send_plain m s
  | some k ↦ elim s.sent_log [
    | none ↦ send_plain m s
    | some log ↦ if counted m.type then send_logged k log m s else send_plain m s
  ]
]
