-- ===== src/Session/Leaving.antt =====
-- What becomes of a session that the user leaves while it is being resumed.
use sozvon.Base.{
  ℕ, ◌+◌, ◌≤◌, ◌≡◌, inl, inr, Bool, true, false, some, ◌∷◌, ◌==◌, if◌then◌else◌, arith, ◌||◌, not,
}
use sozvon.Signalling.{give_up_after, close_no_resume}
use sozvon.Signalling
use sozvon.Session.State.{Session, hello, resuming_with, Resuming, is_some, truthy, set_ready, shut}
use sozvon.Session.Sending.{close, close_socket, transmit}
use sozvon.Session.Sockets.{
  gone, retry, on_timer, resume_session, try_again, on_open, hello_of, close_event, on_socket_close,
}
use sozvon.Session.Events.{Reach}
use sozvon.Session.Phases.{Runs, close-Runs}
use sozvon.Session.Lifetime.{Reach-Phase, on_timer-eq}

module _ (k : ℕ) (s : Session) (v : Runs k s) (q : Resuming) (e : s.resuming ≡ some q) where
  close-resuming : (close s).resuming ≡ some q
  unfolding close close_socket
  close-resuming = ground arith

  on_timer-close :
      (now : ℕ) → now ≤ q.since + give_up_after → on_timer now (close s) ≡ try_again now (close s)
  unfolding resume_session
  on_timer-close now h =
      rw (on_timer-eq k (close s) (close-Runs k s v) q close-resuming now)
        (let c = (close-Runs k s v).running in ground (arith, close-resuming))

  attempt-fields :
      (now : ℕ)
      → ((try_again now (close s)).leaving ≡ true)
        × ((try_again now (close s)).socket ≡ some s.made)
        × ((on_open s.made (try_again now (close s))).wire
            ≡ (s.made, hello (resuming_with s.resume_secret s.received)) ∷ s.wire)
  unfolding try_again close close_socket on_open hello_of transmit
  attempt-fields now = (ground arith, ground arith, ground arith)

-- `close` does not stop a resumption: when the timer fires, within `give_up_after` of the loss, the
-- session that the user left opens a new socket, and once it is open asks the server on it to carry
-- the session on.
pub left_session_resumes :
    (started now : ℕ) (s : Session) (q : Resuming)
    → Reach started s
    → s.resuming ≡ some q
    → now ≤ q.since + give_up_after
    → let t = on_timer now (close s) in
      (t.leaving ≡ true)
      × (t.socket ≡ some s.made)
      × ((on_open s.made t).wire
          ≡ (s.made, hello (resuming_with s.resume_secret s.received)) ∷ s.wire)
left_session_resumes started now s q r e h = elim (Reach-Phase r) [
  | inl (k, v) ↦ rw (on_timer-close k s v q e now h) (attempt-fields k s v q e now)
  | inr v ↦ absurd (ground arith)
]

-- Which close events of its socket end a session.
abbrev pub ends_session : ℕ → Session → Bool
ends_session code s =
    if is_some s.resuming
    then s.leaving || code == close_no_resume
    else s.leaving || not (truthy s.resume_secret) || code == 1000 || code == close_no_resume

close_event-closed :
    (k code now : ℕ) (s : Session)
    → Runs k s
    → (close_event k code now s).closed ≡ ends_session code s
unfolding close_event Signalling.on_close retry resume_session try_again gone close_socket
close_event-closed k code now s v = elim v.bound [ inl e ↦ ground arith | inr e ↦ ground arith ]

shut-Runs :
    (k : ℕ) (s : Session) → Runs k s → Runs k (record s { ready = set_ready k shut s.ready })
shut-Runs k s v = ground arith

ends-Runs :
    (k code now : ℕ) (s : Session)
    → Runs k s
    → (on_socket_close k code now s).closed ≡ ends_session code s
unfolding on_socket_close
ends-Runs k code now s v =
    close_event-closed k code now (record s { ready = set_ready k shut s.ready }) (shut-Runs k s v)

same_socket : (j k : ℕ) (s : Session) → Runs j s → s.current ≡ some k → Runs k s
same_socket j k s v e = let same : j ≡ k = cc v.at in rw (← same) v

-- While a session is open, the close event of its socket ends it exactly when the user has left, or
-- the server says that there is nothing to resume, or, unless it is being resumed already, it has
-- no secret or was closed normally; otherwise it is carried on.
pub on_socket_close-closed :
    (started k code now : ℕ) (s : Session)
    → Reach started s
    → s.closed ≡ false
    → s.current ≡ some k
    → (on_socket_close k code now s).closed ≡ ends_session code s
unfolding on_socket_close
on_socket_close-closed started k code now s r c q = elim (Reach-Phase r) [
  | inl (j, v) ↦ ends-Runs k code now s (same_socket j k s v q)
  | inr v ↦ absurd (ground arith)
]
