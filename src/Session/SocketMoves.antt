-- ===== src/Session/SocketMoves.antt =====
-- What the events of the sockets, the timers and the ping handler do to a session that runs.
use sozvon.Base.{
  ℕ, ◌+◌, ◌≡◌, refl, ◌∙◌, ◌⊎◌, inl, inr, false, none, ◌==◌, arith, Bool-cases, Option-cases, ltb,
  leb, ◌-◌,
}
use sozvon.Signalling.{Argument}
use sozvon.Signalling.{give_up_after}
use sozvon.Session.State.{Session, on_error, connecting, closing, shut, call, set_ready}
use sozvon.Session.Sending.{close_socket, close, fail_with, transmit, send}
use sozvon.Session.Sockets.{
  gone, stop_resuming, try_again, give_up, resume_session, retry, since, close_event,
  on_socket_close, on_socket_error, on_open, on_timer, on_tick, check_silence, hello_of,
  ping_message,
}
use sozvon.Session.Phases.{
  Runs, Change, stays, reopens, stops, carried, closings, gone-Over, socket_live,
}
use sozvon.Session.Moves.{carried-eq, before-eq, with-eq, stays-same, send-Change, close-Change}

module _ (P : Argument → Type 0) (k : ℕ) (s : Session) (v : Runs k s) where
  gone-Change : (code : ℕ) → socket_live s ≡ false → Change P k s (gone code s)
  unfolding gone stop_resuming
  gone-Change code l =
      stops (gone-Over code s v.running v.told l) (carried-eq _ _ (ground arith)) (ground arith)

  pub fail_with-Change : Change P k s (fail_with s)
  unfolding fail_with
  fail_with-Change =
      let v' : Runs k (call on_error s) = ground arith in
      before-eq k s (call on_error s) _ refl refl refl (λ h. h)
        (close-Change P k (call on_error s) v')

  retry-Change : (now : ℕ) → Change P k s (retry now s)
  unfolding retry
  retry-Change now = stays (ground arith) (carried-eq _ _ refl) refl (ground arith) (λ h. h)

  try_again-Change : (now : ℕ) → Change P k s (try_again now s)
  unfolding try_again close_socket
  try_again-Change now =
      reopens (ground arith) (carried-eq _ _ (ground arith)) (ground arith) (ground arith)

  -- What the teardown leaves of a session that lost its socket.
  pub torn-Change :
      (code : ℕ) (t : Session)
      → t.closed ≡ false
      → closings t.calls ≡ closings s.calls
      → t.wire ≡ s.wire
      → t.accepted ≡ s.accepted
      → socket_live t ≡ false
      → Change P k s (gone code t)
  unfolding gone stop_resuming
  torn-Change code t c q w a l =
      stops (gone-Over code t c (q ∙ v.told) l) (carried-eq _ _ (ground arith)) (ground arith)

  give_up-Change : Change P k s (give_up s)
  unfolding give_up close_socket
  give_up-Change =
      torn-Change 1006 (record (close_socket s.current s) { current = none }) (ground arith)
        (ground arith) (ground arith) (ground arith) (ground arith)

  resume_session-Change : (now : ℕ) → Change P k s (resume_session now s)
  unfolding resume_session
  resume_session-Change now = elim (Bool-cases (ltb (since now s.resuming + give_up_after) now)) [
    | inl e ↦ with-eq k s _ (give_up s) (ground arith) give_up-Change
    | inr e ↦ with-eq k s _ (try_again now s) (ground arith) (try_again-Change now)
  ]

  pub on_timer-Change : (now : ℕ) → Change P k s (on_timer now s)
  unfolding on_timer
  on_timer-Change now = elim (Option-cases s.resuming) [
    | inl e ↦ with-eq k s _ s (ground arith) (stays-same P k s v)
    | inr (r, e) ↦ with-eq k s _ (resume_session now s) (ground arith) (resume_session-Change now)
  ]

  pub on_socket_error-Change : (j : ℕ) → Change P k s (on_socket_error j s)
  unfolding on_socket_error
  on_socket_error-Change j =
      stays (ground arith) (carried-eq _ _ (ground arith)) (ground arith) (ground arith)
        (λ h. ground arith)

  pub falters-Change : (j : ℕ) → Change P k s (record s { ready = set_ready j closing s.ready })
  falters-Change j = stays (ground arith) (carried-eq _ _ refl) refl refl (λ h. ground arith)

  pub on_open-Change : (j : ℕ) → s.ready j ≡ connecting → Change P k s (on_open j s)
  unfolding on_open transmit carried hello_of
  on_open-Change j c = elim (Bool-cases (j == k)) [
    | inl e ↦
        stays (ground arith) (λ i. ground arith) (ground arith) (ground arith) (λ h. ground arith)
    | inr e ↦
        stays (ground arith) (λ i. ground arith) (ground arith) (ground arith) (λ h. ground arith)
  ]

  close_event-cases :
      (j code now : ℕ)
      → (close_event j code now s ≡ s)
        ⊎ (close_event j code now s ≡ retry now s)
        ⊎ (close_event j code now s ≡ resume_session now s)
        ⊎ (close_event j code now s ≡ gone code s) × (j ≡ k)
  unfolding close_event
  close_event-cases j code now = ground arith

  close_event-Change : (j code now : ℕ) → s.ready j ≡ shut → Change P k s (close_event j code now s)
  unfolding close_event
  close_event-Change j code now c = elim (close_event-cases j code now) [
    | inl e ↦ with-eq k s _ s e (stays-same P k s v)
    | inr (inl e) ↦ with-eq k s _ _ e (retry-Change now)
    | inr (inr (inl e)) ↦ with-eq k s _ _ e (resume_session-Change now)
    | inr (inr (inr (e, q))) ↦ with-eq k s _ _ e (gone-Change code (ground arith))
  ]

  check_silence-cases :
      (silent now : ℕ)
      → (check_silence silent now s ≡ s)
        ⊎ (check_silence silent now s ≡ resume_session now s)
        ⊎ (check_silence silent now s ≡ (send ping_message s).0)
        ⊎ (check_silence silent now s ≡ gone 1006 (fail_with s))
  unfolding check_silence
  check_silence-cases silent now = ground arith

  failed-Change : Change P k s (gone 1006 (fail_with s))
  unfolding fail_with close close_socket
  failed-Change =
      torn-Change 1006 (fail_with s) (ground arith) (ground arith) (ground arith) (ground arith)
        (ground arith)

  check_silence-Change : (silent now : ℕ) → Change P k s (check_silence silent now s)
  unfolding check_silence
  check_silence-Change silent now = elim (check_silence-cases silent now) [
    | inl e ↦ with-eq k s _ s e (stays-same P k s v)
    | inr (inl e) ↦ with-eq k s _ _ e (resume_session-Change now)
    | inr (inr (inl e)) ↦ with-eq k s _ _ e (send-Change P k s v ping_message)
    | inr (inr (inr e)) ↦ with-eq k s _ _ e failed-Change
  ]

  pub on_tick-Change : (now : ℕ) → Change P k s (on_tick now s)
  unfolding on_tick
  on_tick-Change now = elim (Option-cases s.last_server_message) [
    | inl e ↦ elim (Bool-cases (leb (s.started + 10000) now)) [
      | inl t ↦ with-eq k s _ _ (ground arith) fail_with-Change
      | inr t ↦ with-eq k s _ s (ground arith) (stays-same P k s v)
    ]
    | inr (t, e) ↦ with-eq k s _ _ (ground arith) (check_silence-Change (now - t) now)
  ]

pub on_socket_close-Change :
    (P : Argument → Type 0) (k : ℕ) (s : Session)
    → Runs k s
    → (j code now : ℕ) → Change P k s (on_socket_close j code now s)
unfolding on_socket_close
on_socket_close-Change P k s v j code now =
    let s' : Session = record s { ready = set_ready j shut s.ready } in
    let v' : Runs k s' = ground arith in
    before-eq k s s' _ refl refl refl (λ h. ground arith)
      (close_event-Change P k s' v' j code now (ground arith))
