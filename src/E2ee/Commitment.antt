-- ===== src/E2ee/Commitment.antt =====
-- The initiator takes no public key but the one that the responder committed to.
use sozvon.Base.{
  ◌≡◌, refl, String, Bool, true, false, ◌&&◌, not, Option, none, some, List, [], ◌∷◌, ◌==◌, ==_iff,
  str_eq, arith, inl, inr, Option-cases, if_intro,
}
use sozvon.E2ee.{
  Bytes, bytes_equal, KeyPair, Crypto, Payload, Body, Detail, Context, Role, initiator, responder,
  Task, E2ee, set_worker_mode, set_state, spawn, send, can_encrypt, new,
}
use sozvon.E2ee.Policy.{
  reset_peer, fail, downgrade, announce_no_crypto, set_peer, begin, start_with, recompute_for,
  recompute, set_require, add_user, del_user, continue_in_clear, attach_sender, is_peer,
}
use sozvon.E2ee.Handshake.{
  started, timer_fires, finalize, set_peer_pub, got_commit, got_dh, hashed, dispatch, handle,
  on_message, only_user, is_nocrypto, has_session, agreed, next_key, streams, salted, keyed,
  chat_keyed, signed,
}
use sozvon.E2ee.Machine.{
  Event, requires, joins, leaves, consents, attaches, receives, times_out, wakes, wake, step, run,
  task_at, remove_at,
}

bytes_equal-eq : (a b : Bytes) → bytes_equal a b ≡ true → a ≡ b
unfolding bytes_equal
bytes_equal-eq [] [] h = refl
bytes_equal-eq [] (y ∷ ys) h = cc
bytes_equal-eq (x ∷ xs) [] h = cc
bytes_equal-eq (x ∷ xs) (y ∷ ys) h = ground (arith, ==_iff x y, bytes_equal-eq xs ys)

module _ (c : Crypto) where
  bound : Option Role → Option Bytes → Option Bytes → Bool
  bound none p h = true
  bound (some responder) p h = true
  bound (some initiator) none h = true
  bound (some initiator) (some p) none = false
  bound (some initiator) (some p) (some h) = bytes_equal (c.commit p) h

  bound_commitment :
      (s : E2ee) (p : Bytes)
      → s.role ≡ some initiator
      → s.peer_pub ≡ some p
      → bound s.role s.peer_pub s.peer_commit ≡ true
      → s.peer_commit ≡ some (c.commit p)
  unfolding bound
  bound_commitment s p r k h = elim (Option-cases s.peer_commit) [
    | inl e ↦ ground arith
    | inr (d, e) ↦ ground (arith, bytes_equal-eq (c.commit p) d)
  ]

  abbrev IsBound : E2ee → Type 0
  IsBound s = bound s.role s.peer_pub s.peer_commit ≡ true

  reset_peer-IsBound : (s : E2ee) → IsBound (reset_peer s)
  unfolding reset_peer bound
  reset_peer-IsBound s = refl

  fail-IsBound : (d : Detail) (s : E2ee) → IsBound s → IsBound (fail d s)
  unfolding fail
  fail-IsBound d s g = g

  set_worker-IsBound : (b : Bool) (s : E2ee) → IsBound s → IsBound (set_worker_mode b s)
  unfolding set_worker_mode
  set_worker-IsBound b s g = ground arith

  downgrade-IsBound : (d : Detail) (s : E2ee) → IsBound s → IsBound (downgrade d s)
  unfolding downgrade
  downgrade-IsBound d s g = ground arith

  send-IsBound : (b : Body) (s : E2ee) → IsBound s → IsBound (send b s)
  unfolding send
  send-IsBound b s g = ground arith

  announce_no_crypto-IsBound : (s : E2ee) → IsBound s → IsBound (announce_no_crypto s)
  unfolding announce_no_crypto
  announce_no_crypto-IsBound s g = ground arith

  start_with-IsBound : (p : String) (s : E2ee) → IsBound s → IsBound (start_with p s)
  unfolding start_with begin reset_peer bound
  start_with-IsBound p s g = ground arith

  recompute_for-IsBound : (us : List String) (s : E2ee) → IsBound s → IsBound (recompute_for us s)
  unfolding recompute_for set_peer set_state
  recompute_for-IsBound [] s g =
      if_intro IsBound ((reset_peer s).require && not (can_encrypt (reset_peer s)))
        (downgrade-IsBound _ _ (reset_peer-IsBound s)) (unfold set_state in reset_peer-IsBound s)
  recompute_for-IsBound (p ∷ []) s g =
      if_intro IsBound (not (can_encrypt s))
        (downgrade-IsBound _ _ (announce_no_crypto-IsBound (set_peer p s) g))
        (start_with-IsBound p s g)
  recompute_for-IsBound (p ∷ q ∷ rest) s g = downgrade-IsBound _ _ (reset_peer-IsBound s)

  add_user-IsBound : (id : String) (s : E2ee) → IsBound s → IsBound (add_user id s)
  unfolding add_user recompute
  add_user-IsBound id s g = if_intro IsBound (str_eq id s.id) g (recompute_for-IsBound _ _ g)

  del_user-IsBound : (id : String) (s : E2ee) → IsBound s → IsBound (del_user id s)
  unfolding del_user recompute
  del_user-IsBound id s g =
      recompute_for-IsBound _ _ (if_intro IsBound (is_peer id s.peer) (reset_peer-IsBound _) g)

  continue_in_clear-IsBound : (s : E2ee) → IsBound s → IsBound (continue_in_clear s)
  unfolding continue_in_clear
  continue_in_clear-IsBound s g = ground arith

  attach_sender-IsBound : (works : Bool) (s : E2ee) → IsBound s → IsBound (attach_sender works s).0
  unfolding attach_sender announce_no_crypto send downgrade
  attach_sender-IsBound works s g = ground arith

  finalize-IsBound : (s : E2ee) → IsBound s → IsBound (finalize s)
  unfolding finalize spawn
  finalize-IsBound s g = ground arith

  got_commit-IsBound : (d : Bytes) (s : E2ee) → IsBound s → IsBound (got_commit d s)
  unfolding got_commit send fail bound
  got_commit-IsBound d s g = ground arith

  got_dh-IsBound : (d : Bytes) (s : E2ee) → IsBound s → IsBound (got_dh d s)
  unfolding got_dh send fail set_peer_pub spawn finalize bound
  got_dh-IsBound d s g = ground arith

  hashed-IsBound : (d : Bytes) (s : E2ee) → IsBound s → IsBound (hashed c d s)
  unfolding hashed fail set_peer_pub spawn finalize bound
  hashed-IsBound d s g = ground arith

  dispatch-IsBound : (b : Body) (s : E2ee) → IsBound s → IsBound (dispatch b s)
  unfolding dispatch send
  dispatch-IsBound (Body.commit none) s g = ground arith
  dispatch-IsBound (Body.commit (some d)) s g = ground (arith, got_commit-IsBound d s g)
  dispatch-IsBound (Body.dh none) s g = g
  dispatch-IsBound (Body.dh (some d)) s g = got_dh-IsBound d s g
  dispatch-IsBound _ s g = ground arith

  handle-IsBound : (p : Payload) (s : E2ee) → IsBound s → IsBound (handle p s)
  unfolding handle
  handle-IsBound p s g =
      ground (arith, fail-IsBound Detail.version s g, dispatch-IsBound p.body s g)

  on_message-IsBound :
      (from : String) (p : Option Payload) (s : E2ee) → IsBound s → IsBound (on_message from p s)
  unfolding on_message set_peer spawn
  on_message-IsBound from none s g = g
  on_message-IsBound from (some p) s g = if_intro IsBound (not (only_user from s.users)) g (
      if_intro IsBound (not s.supported)
        (downgrade-IsBound _ _ (announce_no_crypto-IsBound (set_peer from s) g))
        (if_intro IsBound (is_nocrypto p.body) (downgrade-IsBound _ _ g) (
          if_intro IsBound (has_session from s) (handle-IsBound p s g)
            (start_with-IsBound from s g))))

  next_key-IsBound :
      (ctx : Context) (a b : Bytes) (xs : List (String × String)) (s : E2ee)
      → IsBound s
      → IsBound (next_key ctx a b xs s)
  unfolding next_key spawn
  next_key-IsBound ctx a b [] s g = g
  next_key-IsBound ctx a b (x ∷ xs) s g = g

  wake-IsBound : (t : Task) (kp : KeyPair) (s : E2ee) → IsBound s → IsBound (wake c t kp s)
  unfolding wake started agreed salted keyed chat_keyed signed send spawn
  wake-IsBound (Task.starting peer gen) kp s g = ground arith
  wake-IsBound (Task.resuming p) kp s g = handle-IsBound p s g
  wake-IsBound (Task.hashing d) kp s g = hashed-IsBound d s g
  wake-IsBound (Task.agreeing ctx) kp s g = ground arith
  wake-IsBound (Task.salting ctx a) kp s g =
      if_intro IsBound (not (ctx.gen == s.generation)) g
        (next_key-IsBound ctx a (c.transcript ctx.transcript) (streams s.id ctx.peer) s g)
  wake-IsBound (Task.keying ctx a b x xs) kp s g =
      if_intro IsBound (not (ctx.gen == s.generation)) g
        (next_key-IsBound ctx a b xs _ (ground arith))
  wake-IsBound (Task.chatting ctx a b) kp s g = ground arith
  wake-IsBound (Task.signing ctx a b) kp s g = ground arith

  step-IsBound : (s : E2ee) (e : Event) → IsBound s → IsBound (step c s e)
  unfolding step set_require recompute timer_fires
  step-IsBound s (requires b) g = recompute_for-IsBound s.users (record s { require = b }) g
  step-IsBound s (joins id) g = add_user-IsBound id s g
  step-IsBound s (leaves id) g = del_user-IsBound id s g
  step-IsBound s consents g = continue_in_clear-IsBound s g
  step-IsBound s (attaches works) g = attach_sender-IsBound works s g
  step-IsBound s (receives from p) g = on_message-IsBound from p s g
  step-IsBound s (times_out gen) g = ground arith
  step-IsBound s (wakes i kp) g = elim (Option-cases (task_at i s.tasks)) [
    | inl e ↦ rw (e, step) g
    | inr (t, e) ↦ rw (e, step) (wake-IsBound t kp (record s { tasks = remove_at i s.tasks }) g)
  ]

  run-IsBound : (es : List Event) (s : E2ee) → IsBound s → IsBound (run c s es)
  unfolding run
  run-IsBound [] s g = g
  run-IsBound (e ∷ es) s g = run-IsBound es (step c s e) (step-IsBound s e g)

  -- Whatever arrives and in whatever order: a public key that the initiator holds as its peer's
  -- is one whose hash it had been sent before, as the responder's commitment.
  pub initiator_committed :
      (id : String) (supported : Bool) (es : List Event) (p : Bytes)
      → (run c (new id supported) es).role ≡ some initiator
      → (run c (new id supported) es).peer_pub ≡ some p
      → (run c (new id supported) es).peer_commit ≡ some (c.commit p)
  unfolding bound
  initiator_committed id supported es p r k =
      bound_commitment (run c (new id supported) es) p r k (run-IsBound es (new id supported) refl)
