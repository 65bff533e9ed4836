-- ===== src/Session/Silence.antt =====
-- When `send` throws, and what a silent server leads to.
use sozvon.Base.{
  ℕ, ◌-◌, ◌≡◌, refl, inl, inr, Bool, true, false, not, ◌&&◌, ◌||◌, none, some, if◌then◌else◌, arith,
  Bool-cases, ltb,
}
use sozvon.Signalling.{counted, stall_after, give_up_after}
use sozvon.Signalling
use sozvon.Session.State.{Session, Outgoing, is_open, is_some, truthy}
use sozvon.Session.Sending.{send, send_plain, send_logged, close, fail_with, close_socket}
use sozvon.Session.Sockets.{check_silence, on_tick, gone, resume_session, try_again, ping_message}
use sozvon.Session.Events.{Reach}
use sozvon.Session.Phases.{Runs}
use sozvon.Session.Lifetime.{Reach-Phase}

-- A message can be sent at once, or kept for the next socket.
abbrev pub sendable : Outgoing → Session → Bool
sendable m s = elim s.socket [
  | none ↦ false
  | some k ↦ is_open (s.ready k) || (is_some s.sent_log && counted m.type && truthy s.resume_secret)
]

-- `send` throws exactly when the message can be neither sent nor kept, and then changes nothing.
pub send-throws :
    (m : Outgoing) (s : Session)
    → ((send m s).1 ≡ not (sendable m s))
      × ((send m s).0 ≡ (if sendable m s then (send m s).0 else s))
unfolding send send_plain send_logged
send-throws m s = (ground arith, ground arith)

send_keeps :
    (m : Outgoing) (s : Session)
    → ((send m s).0.closed ≡ s.closed) × ((send m s).0.resuming ≡ s.resuming)
unfolding send send_plain send_logged
send_keeps m s = ground arith

module _ (k : ℕ) (s : Session) (v : Runs k s) where
  fail_with-closed : (fail_with s).closed ≡ false
  unfolding fail_with close close_socket
  fail_with-closed = elim v.bound [ inl e ↦ ground arith | inr e ↦ ground arith ]

  resumed-fields :
      (now : ℕ)
      → is_some s.resuming ≡ false
      → ((resume_session now s).closed ≡ false) × (is_some (resume_session now s).resuming ≡ true)
  unfolding resume_session try_again close_socket
  resumed-fields now r = ground arith

  torn : ((gone 1006 (fail_with s)).closed ≡ true) × ((gone 1006 (fail_with s)).resuming ≡ none)
  unfolding gone
  torn = ground (arith, fail_with-closed)

  silence :
      (silent now : ℕ)
      → is_some s.resuming ≡ false
      → ((check_silence silent now s).closed ≡ not (truthy s.resume_secret) && ltb 50000 silent)
        × (is_some (check_silence silent now s).resuming
            ≡ truthy s.resume_secret && ltb stall_after silent)
  unfolding check_silence Signalling.on_tick
  silence silent now r = ground (arith, resumed-fields now r, send_keeps ping_message s, torn)

-- When the ping handler finds that the server, after its first message, has been silent for more
-- than 50 s, a session that cannot be resumed is torn down; one that can be is resumed as soon as
-- the silence is longer than `stall_after`; one that is being resumed already is left alone.
pub on_tick-silent :
    (started now t : ℕ) (s : Session)
    → Reach started s
    → s.closed ≡ false
    → s.last_server_message ≡ some t
    → ((on_tick now s).closed
        ≡ not (is_some s.resuming) && not (truthy s.resume_secret) && ltb 50000 (now - t))
      × (is_some (on_tick now s).resuming
          ≡ is_some s.resuming || truthy s.resume_secret && ltb stall_after (now - t))
unfolding on_tick
on_tick-silent started now t s r o l = elim (Reach-Phase r) [
  | inr v ↦ absurd (ground arith)
  | inl (k, v) ↦ elim (Bool-cases (is_some s.resuming)) [
    | inl q ↦
        let e : check_silence (now - t) now s ≡ s =
          unfold check_silence in rw (q, check_silence) refl in
        ground arith
    | inr q ↦ let e = silence k s v (now - t) now q in ground arith
  ]
]
