-- ===== src/Session/Lifetime.antt =====
-- A session over all the orders of its events: it runs until it is torn down, once.
use sozvon.Base.{
  ℕ, suc, ◌+◌, ◌≡◌, ◌≢◌, refl, ap₂, ◌⊎◌, inl, inr, true, false, none, some, if◌then◌else◌, arith,
  Option-cases, ltb,
}
use sozvon.Signalling.{
  Message, SentLog, after, Argument, counted, close_no_resume, give_up_after, attempt_timeout, end,
  resume,
}
use sozvon.Signalling
use sozvon.Session.State.{
  Session, Outgoing, Ready, shut, is_live, truthy, set_ready, Resuming, Timer, spent,
}
use sozvon.Session.Sending.{close_socket, close, send, send_plain, send_logged}
use sozvon.Session.Sockets.{
  gone, resume_session, try_again, give_up, on_timer, on_open, close_event, on_socket_close,
  on_socket_error,
}
use sozvon.Session.Incoming.{on_message, resumed}
use sozvon.Session.Events.{
  Event, leaves, fires, ticks, opens, falters, fails, ends, gets, apply, Occurs, Step, step, Reach,
  start, later,
}
use sozvon.Session.Phases.{
  Runs, Over, Change, stays, sends, keeps, replays, reopens, stops, closings, begin-Runs,
}
use sozvon.Session.Moves.{close-Change, send-Change}
use sozvon.Session.SocketMoves.{
  on_timer-Change, on_tick-Change, on_open-Change, on_socket_close-Change, on_socket_error-Change,
  falters-Change,
}
use sozvon.Session.MessageMoves.{on_message-Change}

-- The answers to a resumption that the event `e` brings on the socket `k`.
abbrev pub Answered : ℕ → Event → Argument → Type 0
Answered k e a = e ≡ gets k (resumed a)

pub apply-Change :
    (k : ℕ) (e : Event) (now : ℕ) (s : Session)
    → Runs k s
    → Occurs e now s
    → Change (Answered k e) k s (apply e now s)
unfolding apply
apply-Change k (Event.sends m) now s v o = send-Change _ k s v m
apply-Change k leaves now s v o = close-Change _ k s v
apply-Change k fires now s v o = on_timer-Change _ k s v now
apply-Change k ticks now s v o = on_tick-Change _ k s v now
apply-Change k (opens j) now s v o = on_open-Change _ k s v j o
apply-Change k (falters j) now s v o = falters-Change _ k s v j
apply-Change k (fails j) now s v o = on_socket_error-Change _ k s v j
apply-Change k (ends j code) now s v o = on_socket_close-Change _ k s v j code now
apply-Change k (gets j m) now s v o = on_message-Change _ k s v j m now (λ a e q. ap₂ gets q e) o

-- What a torn down session shows stays the same.
pub record Inert (s t : Session) : Type 0 where
  pub same_wire : t.wire ≡ s.wire
  pub same_accepted : t.accepted ≡ s.accepted
  pub same_calls : t.calls ≡ s.calls
  pub same_made : t.made ≡ s.made
  pub same_member : t.member ≡ s.member
  pub still_over : Over t

send-Inert : (m : Outgoing) (s : Session) → Over s → Inert s (send m s).0
unfolding send send_plain send_logged
send-Inert m s v = ground arith

close-Inert : (s : Session) → Over s → Inert s (close s)
unfolding close close_socket
close-Inert s v = ground arith

close_event_over :
    (j code now : ℕ) (s : Session)
    → s.closed ≡ true
    → s.resuming ≡ none
    → truthy s.resume_secret ≡ false
    → close_event j code now s ≡ s
unfolding close_event gone Signalling.on_close
close_event_over j code now s c r t = ground arith

set_ready-Inert :
    (j : ℕ) (r : Ready) (s : Session)
    → is_live r ≡ false
    → Over s
    → Inert s (record s { ready = set_ready j r s.ready })
set_ready-Inert j r s l v = ground arith

on_socket_close-Inert :
    (j code now : ℕ) (s : Session) → Over s → Inert s (on_socket_close j code now s)
unfolding on_socket_close
on_socket_close-Inert j code now s v =
    rw
      (close_event_over j code now (record s { ready = set_ready j shut s.ready }) v.ended
        v.unresumed v.no_secret)
      (set_ready-Inert j shut s refl v)

pub apply-Inert :
    (e : Event) (now : ℕ) (s : Session) → Over s → Occurs e now s → Inert s (apply e now s)
unfolding apply on_timer on_open on_socket_error on_message
apply-Inert (Event.sends m) now s v o = send-Inert m s v
apply-Inert leaves now s v o = close-Inert s v
apply-Inert fires now s v o = ground arith
apply-Inert ticks now s v o = ground arith
apply-Inert (opens j) now s v o = ground arith
apply-Inert (falters j) now s v o = ground arith
apply-Inert (fails j) now s v o = ground arith
apply-Inert (ends j code) now s v o = on_socket_close-Inert j code now s v
apply-Inert (gets j m) now s v o = ground arith

Step-Inert : {s t : Session} → Over s → Step s t → Inert s t
Step-Inert {s} v (step e now o) = apply-Inert e now s v o

-- A session runs on some socket, or is over.
abbrev pub Phase : Session → Type 0
Phase s = ((k : ℕ) × Runs k s) ⊎ Over s

Change-Phase : {P : Argument → Type 0} (k : ℕ) (s t : Session) → Change P k s t → Phase t
Change-Phase k s t (stays v _ _ _ _) = inl (k, v)
Change-Phase k s t (sends _ v _ _ _ _ _) = inl (k, v)
Change-Phase k s t (keeps _ v _ _ _ _) = inl (k, v)
Change-Phase k s t (replays _ _ _ v _ _ _ _ _ _ _) = inl (k, v)
Change-Phase k s t (reopens v _ _ _) = inl (suc k, v)
Change-Phase k s t (stops v _ _) = inr v

Step-Phase : {s t : Session} → Phase s → Step s t → Phase t
Step-Phase {s} (inl (k, v)) (step e now o) = Change-Phase k s _ (apply-Change k e now s v o)
Step-Phase {s} (inr v) (step e now o) = inr ((apply-Inert e now s v o).still_over)

pub Reach-Phase : {now : ℕ} {s : Session} → Reach now s → Phase s
Reach-Phase {now} start = inl (0, begin-Runs now)
Reach-Phase (later r st) = Step-Phase (Reach-Phase r) st

-- In every session, `onclose` was called exactly as often as the session was torn down, which is
-- at most once.
pub closes_once :
    (now : ℕ) (s : Session) → Reach now s → closings s.calls ≡ (if s.closed then 1 else 0)
closes_once now s r = elim (Reach-Phase r) [ inl (k, v) ↦ ground arith | inr v ↦ ground arith ]

-- After the teardown nothing goes out, nothing is kept to be sent, no socket is opened, no
-- callback is called and the users stay as they are, whatever the application or the browser do.
pub closed-Inert : (now : ℕ) (s t : Session) → Reach now s → s.closed ≡ true → Step s t → Inert s t
closed-Inert now s t r c st = elim (Reach-Phase r) [
  | inl (k, v) ↦ absurd (ground arith)
  | inr v ↦ Step-Inert v st
]

module _ (k : ℕ) (s : Session) (v : Runs k s) (q : Resuming) (e : s.resuming ≡ some q) where
  timer_set : (t : Timer) × (q.timer ≡ some t) × (t.kind ≢ spent)
  timer_set = elim (Option-cases q.timer) [
    | inl n ↦ absurd (ground arith)
    | inr (t, n) ↦ (t, n, λ x. ground arith)
  ]

  pub on_timer-eq : (now : ℕ) → on_timer now s ≡ resume_session now s
  unfolding on_timer
  on_timer-eq now = ground arith

  resumes_or_ends :
      (now : ℕ)
      → ((resume_session now s).closed ≡ ltb (q.since + give_up_after) now)
        × ((resume_session now s).made
            ≡ (if ltb (q.since + give_up_after) now then s.made else s.made + 1))
        × ((resume_session now s).socket
            ≡ (if ltb (q.since + give_up_after) now then s.socket else some s.made))
  unfolding resume_session give_up try_again gone close_socket
  resumes_or_ends now = ground arith

-- A session that is being resumed has a timer that is still to fire. When it fires the session is
-- torn down if more than `give_up_after` has passed since the socket was lost, and otherwise a new
-- socket is opened and becomes the session's.
pub resuming_goes_on :
    (now : ℕ) (s : Session) (q : Resuming) (then_on : ℕ)
    → Reach now s
    → s.resuming ≡ some q
    → ((t : Timer) × (q.timer ≡ some t) × (t.kind ≢ spent))
      × ((on_timer then_on s).closed ≡ ltb (q.since + give_up_after) then_on)
      × ((on_timer then_on s).made
          ≡ (if ltb (q.since + give_up_after) then_on then s.made else s.made + 1))
      × ((on_timer then_on s).socket
          ≡ (if ltb (q.since + give_up_after) then_on then s.socket else some s.made))
resuming_goes_on now s q then_on r e = elim (Reach-Phase r) [
  | inl (k, v) ↦
      rw (on_timer-eq k s v q e then_on)
        (let (c, m, o) = resumes_or_ends k s v q e then_on in (timer_set k s v q e, c, m, o))
  | inr v ↦ absurd (ground arith)
]
