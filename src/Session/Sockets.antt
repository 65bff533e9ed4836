-- ===== src/Session/Sockets.antt =====
-- static/protocol.js, inside `connect`: the end of a session, its resumption, the events of the
-- sockets and the ping handler. `Date.now() - t > d` is written `t + d < now`.
use sozvon.Base.{
  ℕ, ◌+◌, ◌-◌, String, true, false, Option, none, some, List, [], ◌∷◌, ltb, leb, ◌==◌,
  if◌then◌else◌, not, ◌&&◌, ◌||◌, units,
}
use sozvon.Signalling.{
  give_up_after, attempt_timeout, retry_delay, close_no_resume, CloseAction, end, resume,
  TickAction, fine, ping, reconnect,
}
use sozvon.Signalling
use sozvon.Session.State.{
  Session, Outgoing, Hello, plain, resumable, resuming_with, hello, connecting, opened, shut,
  Resuming, attempt, pause, spent, User, Call, on_error, on_before_close, closes_streams, on_user,
  on_joined, on_close, delete, leave, truthy, is_some, is_socket, set_ready, call,
}
use sozvon.Session.Sending.{close_socket, fail_with, transmit, send}

unfoldable pub stop_resuming : Session → Session
stop_resuming s = record s { resuming = none }

-- The callbacks for the users that are taken out, the latest first.
unfoldable pub users_gone : List (String × User) → List Call → List Call
users_gone [] calls = calls
users_gone (u ∷ us) calls = users_gone us (on_user u.0 delete ∷ calls)

-- The callbacks of `gone`.
unfoldable pub farewell : ℕ → Session → List Call
unfolding users_gone
farewell code s =
    let gone = users_gone s.member.users (closes_streams ∷ on_before_close ∷ s.calls) in
    on_close code ∷ (if truthy s.member.group then on_joined leave s.member.group ∷ gone else gone)

unfoldable pub gone : ℕ → Session → Session
unfolding stop_resuming
gone code s = if s.closed then s else record (stop_resuming s) {
  closed = true;
  resume_secret = none;
  ping_handler = false;
  member = record s.member { users = []; permissions = []; group = none; username = none };
  calls = farewell code s;
}

-- `sc.resuming.since`, once `resume` has set it.
abbrev pub since : ℕ → Option Resuming → ℕ
since now none = now
since now (some r) = r.since

-- Opens a socket and sets the timer of the attempt.
unfoldable pub try_again : ℕ → Session → Session
unfolding close_socket
try_again now s = record (close_socket s.current s) {
  current = some s.made;
  socket = some s.made;
  ready = set_ready s.made connecting (close_socket s.current s).ready;
  made = s.made + 1;
  resuming = some (record {
    since = since now s.resuming;
    timer = some (record { kind = attempt s.made; due = now + attempt_timeout });
  });
}

unfoldable pub give_up : Session → Session
give_up s = gone 1006 (record (close_socket s.current s) { current = none })

unfoldable pub resume_session : ℕ → Session → Session
resume_session now s =
    if s.closed
    then s
    else if ltb (since now s.resuming + give_up_after) now
    then give_up s
    else try_again now s

unfoldable pub retry : ℕ → Session → Session
retry now s = record s {
  resuming = elim s.resuming [
    | none ↦ none
    | some r ↦ some (record r { timer = some (record { kind = pause; due = now + retry_delay }) })
  ];
}

-- The functions that the two `setTimeout` calls are given.
unfoldable pub on_timer : ℕ → Session → Session
on_timer now s = elim s.resuming [
  | none ↦ s
  | some r ↦ elim r.timer [
    | none ↦ s
    | some t ↦ elim t.kind [
      | pause ↦ resume_session now s
      | attempt k ↦
          if is_socket k s.current
          then resume_session now s
          else record s { resuming = some (record r { timer = some (record t { kind = spent }) }) }
      | spent ↦ s
    ]
  ]
]

unfoldable pub on_socket_error : ℕ → Session → Session
on_socket_error k s =
    if s.closed || not (is_socket k s.current) || is_some s.resuming then s else call on_error s

unfoldable pub hello_of : Session → Hello
hello_of s =
    if is_some s.resuming
    then resuming_with s.resume_secret s.received
    else if is_some s.sent_log
    then resumable
    else plain

-- The socket is open by then, so that `send` does not throw.
unfoldable pub on_open : ℕ → Session → Session
unfolding transmit hello_of
on_open k s =
    let s' : Session = record s { ready = set_ready k opened s.ready } in
    if s.closed || not (is_socket k s.current) then s' else transmit k (hello (hello_of s')) s'

-- The handler of the `close` event, without the change of `readyState`.
unfoldable pub close_event : ℕ → ℕ → ℕ → Session → Session
close_event k code now s =
    if not (is_socket k s.current)
    then s
    else if is_some s.resuming && not s.leaving && not (code == close_no_resume)
    then retry now s
    else elim (Signalling.on_close code (truthy s.resume_secret) s.leaving) [
      | resume ↦
          if not (is_some s.resuming) && is_some s.sent_log
          then resume_session now s
          else gone code s
      | end ↦ gone code s
    ]

unfoldable pub on_socket_close : ℕ → ℕ → ℕ → Session → Session
on_socket_close k code now s =
    close_event k code now (record s { ready = set_ready k shut s.ready })

abbrev pub ping_message : Outgoing
ping_message = record { type = "ping"; text = units "{\"type\":\"ping\"}" }

-- The ping handler, once the server has said something.
unfoldable pub check_silence : ℕ → ℕ → Session → Session
check_silence silent now s =
    if is_some s.resuming
    then s
    else if truthy s.resume_secret
    then elim (Signalling.on_tick silent) [
      | reconnect ↦ resume_session now s
      | ping ↦ (send ping_message s).0
      | fine ↦ s
    ]
    else if ltb 50000 silent
    then gone 1006 (fail_with s)
    else if s.greeted && leb 15000 silent
    then (send ping_message s).0
    else s

unfoldable pub on_tick : ℕ → Session → Session
on_tick now s = elim s.last_server_message [
  | none ↦ if leb (s.started + 10000) now then fail_with s else s
  | some t ↦ check_silence (now - t) now s
]

-- `connect`; none if it throws.
unfoldable pub connect : ℕ → Session → Option Session
connect now s = elim s.socket [
  | some k ↦ none
  | none ↦ some (record s {
    socket = some s.made;
    current = some s.made;
    ready = set_ready s.made connecting s.ready;
    made = s.made + 1;
    closed = false;
    started = now;
    ping_handler = true;
  })
]
