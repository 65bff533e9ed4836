-- ===== src/E2ee/Modes/Steps.antt =====
-- A property with the interface `IsKept` is kept by every step of the controller, whatever the
-- order in which its tasks are woken; a change of the option and the last part of `finalize` are
-- left to the property.
use sozvon.Base.{
  ℕ, ◌≡◌, refl, String, Bool, true, false, ◌&&◌, not, Option, none, some, List, [], ◌∷◌, ◌==◌,
  str_eq, arith, inl, inr, Option-cases, if_intro,
}
use sozvon.E2ee.{
  Bytes, bytes_equal, Role, KeyPair, Crypto, Payload, Body, Context, State, Task, Session, E2ee,
  ensure_worker, spawn, send, can_encrypt,
}
use sozvon.E2ee.Policy.{
  reset_peer, announce_no_crypto, set_peer, start_with, is_started, recompute_for, recompute,
  set_require, add_user, del_user, attach_sender, is_peer,
}
use sozvon.E2ee.Handshake.{
  started, same_version, finalize, set_peer_pub, got_commit, got_dh, hashed, dispatch, handle,
  on_message, only_user, is_nocrypto, has_session, agreed, chat_keyed, signed,
}
use sozvon.E2ee.Machine.{
  Event, requires, joins, leaves, consents, attaches, receives, times_out, wakes, wake, step,
  task_at, remove_at,
}
use sozvon.E2ee.Modes.{Same, IsKept}
use sozvon.E2ee.Modes.Unaffected.{
  users-Same, session-Same, tasks-Same, transform-Same, send-Same, spawn-Same, finalize-Same,
  ensure_worker-Same, timer_fires-Same, chat-Same, started-Same, salted-Same, keyed-Same,
}

module _ (P : E2ee → Type 0) (k : IsKept P) where
  open k use {frame, shuts, resets, fails, idles, begins, downgrades}

  send-kept : (b : Body) (s : E2ee) → P s → P (send b s)
  send-kept b s = frame s _ (send-Same b s)

  spawn-kept : (t : Task) (s : E2ee) → P s → P (spawn t s)
  spawn-kept t s = frame s _ (spawn-Same t s)

  users-kept : (us : List String) (s : E2ee) → P s → P (record s { users = us })
  users-kept us s = frame s _ (users-Same us s)

  session-kept : (x : Session) (s : E2ee) → P s → P (record s { session = x })
  session-kept x s = frame s _ (session-Same x s)

  tasks-kept : (ts : List Task) (s : E2ee) → P s → P (record s { tasks = ts })
  tasks-kept ts s = frame s _ (tasks-Same ts s)

  announce_no_crypto-kept : (s : E2ee) → P s → P (announce_no_crypto s)
  unfolding announce_no_crypto
  announce_no_crypto-kept s = send-kept _ s

  set_peer-kept : (p : String) (s : E2ee) → P s → P (set_peer p s)
  unfolding set_peer
  set_peer-kept p s = session-kept _ s

  start_with-kept : (p : String) (s : E2ee) → P s → P (start_with p s)
  unfolding start_with
  start_with-kept p s g =
      if_intro P (not s.supported) g (if_intro P (is_started p s) g (begins p _ (resets s g)))

  recompute_for-kept : (us : List String) (s : E2ee) → P s → P (recompute_for us s)
  unfolding recompute_for
  recompute_for-kept [] s g =
      if_intro P ((reset_peer s).require && not (can_encrypt (reset_peer s)))
        (downgrades _ _ (resets s g)) (idles _ (resets s g))
  recompute_for-kept (p ∷ []) s g =
      if_intro P (not (can_encrypt s))
        (downgrades _ _ (announce_no_crypto-kept _ (set_peer-kept p s g))) (start_with-kept p s g)
  recompute_for-kept (p ∷ q ∷ rest) s g = downgrades _ _ (resets s g)

  recompute-kept : (s : E2ee) → P s → P (recompute s)
  unfolding recompute
  recompute-kept s = recompute_for-kept s.users s

  add_user-kept : (id : String) (s : E2ee) → P s → P (add_user id s)
  unfolding add_user
  add_user-kept id s g = if_intro P (str_eq id s.id) g (recompute-kept _ (users-kept _ s g))

  del_user-kept : (id : String) (s : E2ee) → P s → P (del_user id s)
  unfolding del_user
  del_user-kept id s g =
      recompute-kept _
        (if_intro P (is_peer id s.peer) (resets _ (users-kept _ s g)) (users-kept _ s g))

  attach_sender-kept : (works : Bool) (s : E2ee) → P s → P (attach_sender works s).0
  unfolding attach_sender
  attach_sender-kept works s g =
      if_intro (λ (r : E2ee × Bool). P r.0) (not s.supported) g
        (if_intro (λ (r : E2ee × Bool). P r.0) works (frame s _ (ensure_worker-Same s) g)
          (downgrades _ _ (
            announce_no_crypto-kept _ (
              frame (ensure_worker s) _ (transform-Same true _)
                (frame s _ (ensure_worker-Same s) g)))))

  got_commit-kept : (d : Bytes) (s : E2ee) → P s → P (got_commit d s)
  unfolding got_commit
  got_commit-kept d s g = elim (Option-cases s.peer_commit) [
    | inl e ↦ rw (e, got_commit) (send-kept _ _ (session-kept _ s g))
    | inr (old, e) ↦ rw (e, got_commit) (if_intro P (bytes_equal d old) g (fails _ s g))
  ]

  finalize-kept : (s : E2ee) → P s → P (finalize s)
  finalize-kept s = frame s _ (finalize-Same s)

  got_first_dh : (d : Bytes) (s : E2ee) → s.peer_pub ≡ none → Same s (got_dh d s)
  unfolding got_dh finalize set_peer_pub spawn send
  got_first_dh d s e = ground arith

  got_dh-kept : (d : Bytes) (s : E2ee) → P s → P (got_dh d s)
  unfolding got_dh
  got_dh-kept d s g = elim (Option-cases s.peer_pub) [
    | inl e ↦ frame s _ (got_first_dh d s e) g
    | inr (old, e) ↦ rw (e, got_dh) (if_intro P (bytes_equal d old) g (fails _ s g))
  ]

  dispatch_hello : (s : E2ee) → Same s (dispatch Body.hello s)
  unfolding dispatch send
  dispatch_hello s = ground arith

  dispatch_commit : (d : Bytes) (s : E2ee) → P s → P (dispatch (Body.commit (some d)) s)
  unfolding dispatch
  dispatch_commit d s g = elim (Option-cases s.role) [
    | inl e ↦ rw (e, dispatch) g
    | inr (Role.initiator, e) ↦ rw (e, dispatch) (got_commit-kept d s g)
    | inr (Role.responder, e) ↦ rw (e, dispatch) g
  ]

  dispatch_no_commit : (s : E2ee) → Same s (dispatch (Body.commit none) s)
  unfolding dispatch
  dispatch_no_commit s = ground arith

  dispatch-kept : (b : Body) (s : E2ee) → P s → P (dispatch b s)
  unfolding dispatch
  dispatch-kept (Body.commit none) s g = frame s _ (dispatch_no_commit s) g
  dispatch-kept (Body.commit (some d)) s g = dispatch_commit d s g
  dispatch-kept (Body.dh none) s g = g
  dispatch-kept (Body.dh (some d)) s g = got_dh-kept d s g
  dispatch-kept Body.hello s g = frame s _ (dispatch_hello s) g
  dispatch-kept _ s g = g

  handle-kept : (p : Payload) (s : E2ee) → P s → P (handle p s)
  unfolding handle
  handle-kept p s g =
      if_intro P (elim s.state [ State.established ↦ true | State.failed ↦ true | _ ↦ false ]) g
        (elim (Option-cases s.my_commit) [
          | inl e ↦ rw e g
          | inr (h, e) ↦
              rw e (if_intro P (not (same_version p.v)) (fails _ s g) (dispatch-kept p.body s g))
        ])

  on_message-kept : (from : String) (p : Option Payload) (s : E2ee) → P s → P (on_message from p s)
  unfolding on_message
  on_message-kept from none s g = g
  on_message-kept from (some p) s g = if_intro P (not (only_user from s.users)) g (
      if_intro P (not s.supported)
        (downgrades _ _ (announce_no_crypto-kept _ (set_peer-kept from s g)))
        (if_intro P (is_nocrypto p.body) (downgrades _ _ (session-kept _ s g)) (
          if_intro P (has_session from s) (handle-kept p s g)
            (spawn-kept _ _ (start_with-kept from s g)))))

  module _ (c : Crypto) where
    started-kept : (p : String) (gen : ℕ) (kp : KeyPair) (s : E2ee) → P s → P (started c p gen kp s)
    started-kept p gen kp s = frame s _ (started-Same c p gen kp s)

    hashed_ok :
        (s t : E2ee)
        → P s
        → P t
        → P (elim s.peer_pub [
          | some old ↦ s
          | none ↦ elim s.state [ State.handshaking ↦ finalize t | _ ↦ s ]
        ])
    hashed_ok s t g h = elim (Option-cases s.peer_pub) [
      | inl e ↦
          rw e
            (elim s.state
              as (λ (x : State). P (elim x [ State.handshaking ↦ finalize t | _ ↦ s ])) [
                | State.handshaking ↦ finalize-kept t h
                | _ ↦ g
              ])
      | inr (old, e) ↦ rw e g
    ]

    hashed-kept : (d : Bytes) (s : E2ee) → P s → P (hashed c d s)
    unfolding hashed
    hashed-kept d s g = elim (Option-cases s.peer_commit) [
      | inl e ↦ rw (e, hashed) g
      | inr (h, e) ↦
          rw (e, hashed)
            (if_intro P (not (bytes_equal (c.commit d) h)) (fails _ s g)
              (hashed_ok s (set_peer_pub d s) g (unfold set_peer_pub in session-kept _ s g)))
    ]

    agreed-kept : (ctx : Context) (s : E2ee) → P s → P (agreed c ctx s)
    unfolding agreed
    agreed-kept ctx s g = elim (Option-cases (c.agree ctx.key_pair ctx.peer_pub)) [
      | inl e ↦ rw (e, agreed) g
      | inr (secret, e) ↦
          rw (e, agreed)
            (if_intro P (not (ctx.gen == s.generation)) g (spawn-kept _ _ (session-kept _ s g)))
    ]

    chat_keyed-kept : (ctx : Context) (a b : Bytes) (s : E2ee) → P s → P (chat_keyed c ctx a b s)
    unfolding chat_keyed
    chat_keyed-kept ctx a b s g =
        if_intro P (not (ctx.gen == s.generation)) g
          (spawn-kept _ _ (shuts _ (frame s _ (chat-Same _ s) g)))

    wake-kept :
        (t : Task) (kp : KeyPair) (s : E2ee)
        → ((ctx : Context) (a b : Bytes) → t ≡ Task.signing ctx a b → P (signed c ctx a b s))
        → P s
        → P (wake c t kp s)
    unfolding wake
    wake-kept (Task.starting peer gen) kp s h g = started-kept peer gen kp s g
    wake-kept (Task.resuming p) kp s h g = handle-kept p s g
    wake-kept (Task.hashing d) kp s h g = hashed-kept d s g
    wake-kept (Task.agreeing ctx) kp s h g = agreed-kept ctx s g
    wake-kept (Task.salting ctx a) kp s h g = frame s _ (salted-Same c ctx a s) g
    wake-kept (Task.keying ctx a b x xs) kp s h g = frame s _ (keyed-Same c ctx a b x xs s) g
    wake-kept (Task.chatting ctx a b) kp s h g = chat_keyed-kept ctx a b s g
    wake-kept (Task.signing ctx a b) kp s h g = h ctx a b refl

    -- The theorem of this file.
    pub step-kept :
        (s : E2ee) (e : Event)
        → ((b : Bool) → e ≡ requires b → P (record s { require = b }))
        → ((i : ℕ) (kp : KeyPair) (ctx : Context) (a b : Bytes)
            → e ≡ wakes i kp
            → task_at i s.tasks ≡ some (Task.signing ctx a b)
            → P (signed c ctx a b (record s { tasks = remove_at i s.tasks })))
        → P s
        → P (step c s e)
    unfolding step set_require
    step-kept s (requires b) n h g = recompute-kept _ (n b refl)
    step-kept s (joins id) n h g = add_user-kept id s g
    step-kept s (leaves id) n h g = del_user-kept id s g
    step-kept s consents n h g = k.consents s g
    step-kept s (attaches works) n h g = attach_sender-kept works s g
    step-kept s (receives from p) n h g = on_message-kept from p s g
    step-kept s (times_out gen) n h g = frame s _ (timer_fires-Same gen s) g
    step-kept s (wakes i kp) n h g = elim (Option-cases (task_at i s.tasks)) [
      | inl e ↦ rw (e, step) g
      | inr (t, e) ↦
          rw (e, step)
            (wake-kept t kp _ (λ ctx a b q. h i kp ctx a b refl (rw q at e)) (tasks-kept _ s g))
    ]
