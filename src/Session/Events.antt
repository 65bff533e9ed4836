-- ===== src/Session/Events.antt =====
-- The events of a session, in any order that the browser allows.
use sozvon.Base.{ℕ, ◌≤◌, ◌≡◌, ◌≢◌, true, Option, none, some}
use sozvon.Signalling.{new}
use sozvon.Session.State.{
  Session, Outgoing, connecting, opened, closing, shut, is_live, set_ready, unconnected, Resuming,
  Timer,
}
use sozvon.Session.Sending.{send, close}
use sozvon.Session.Sockets.{on_timer, on_tick, on_open, on_socket_close, on_socket_error, connect}
use sozvon.Session.Incoming.{Incoming, on_message}

-- `sends` and `leaves` are calls of the application, the others are the browser's. A socket
-- that `falters` stops being open before there is an event.
pub data Event : Type 0 where
  sends : Outgoing → Event
  leaves fires ticks : Event
  opens falters fails : ℕ → Event
  ends : ℕ → ℕ → Event
  gets : ℕ → Incoming → Event

unfoldable pub apply : Event → ℕ → Session → Session
apply (sends m) now s = (send m s).0
apply leaves now s = close s
apply fires now s = on_timer now s
apply ticks now s = on_tick now s
apply (opens k) now s = on_open k s
apply (falters k) now s = record s { ready = set_ready k closing s.ready }
apply (fails k) now s = on_socket_error k s
apply (ends k code) now s = on_socket_close k code now s
apply (gets k m) now s = on_message k m now s

-- The timer that is set, if it is due.
abbrev pub IsDue : ℕ → Option Resuming → Type 0
IsDue now r = (q : Resuming) × (t : Timer) × (r ≡ some q) × (q.timer ≡ some t) × (t.due ≤ now)

-- When the browser can bring an event about.
abbrev pub Occurs : Event → ℕ → Session → Type 0
Occurs (sends m) now s = Unit {0}
Occurs leaves now s = Unit {0}
Occurs fires now s = IsDue now s.resuming
Occurs ticks now s = s.ping_handler ≡ true
Occurs (opens k) now s = s.ready k ≡ connecting
Occurs (falters k) now s = is_live (s.ready k) ≡ true
Occurs (fails k) now s = s.ready k ≢ shut
Occurs (ends k code) now s = s.ready k ≢ shut
Occurs (gets k m) now s = s.ready k ≡ opened

pub data Step (s : Session) : Session → Type 0 where
  step : (e : Event) (now : ℕ) → Occurs e now s → Step s (apply e now s)

-- The session that `connect` starts, with the log of signalling-resume.js.
unfoldable pub begin : ℕ → Session
begin now = elim (connect now (unconnected (some new))) [
  | none ↦ unconnected (some new)
  | some s ↦ s
]

pub data Reach (now : ℕ) : Session → Type 0 where
  start : Reach now (begin now)
  later : {s t : Session} → Reach now s → Step s t → Reach now t
