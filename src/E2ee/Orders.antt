-- ===== src/E2ee/Orders.antt =====
-- Two events whose order decides whether a call goes on in clear.
use sozvon.Base.{
  ℕ, ◌≡◌, refl, ◌∙◌, ap, sym, String, Bool, true, false, ◌&&◌, ◌||◌, not, Option, some, [], ◌∷◌,
  arith, eq_refl,
}
use sozvon.E2ee.{
  Bytes, KeyPair, Crypto, Context, established, blocked, unencrypted, Detail, Worker, Payload,
  nocrypto, peer_unsupported, signing, E2ee, set_worker_mode, set_state, can_encrypt,
}
use sozvon.E2ee.Policy.{
  downgrade, start_with, recompute_for, recompute, set_require, is_started, is_peer,
  may_publish_local_media,
}
use sozvon.E2ee.Handshake.{signed, on_message, only_user, is_nocrypto}
use sozvon.E2ee.Machine.{requires, receives, wakes, step, run, task_at, remove_at, wake}
use sozvon.E2ee.Modes.{in_clear, clear_worker}

-- A call with the user `p` alone, in a browser that encrypts, where encryption is not required and
-- no call was encrypted before.
pub record IsOpen (p : String) (s : E2ee) : Type 0 where
  pub pair : s.users ≡ p ∷ []
  pub supports : s.supported ≡ true
  pub works : s.transform_failed ≡ false
  pub optional : s.require ≡ false
  pub unsealed : s.was_encrypted ≡ false

abbrev pub says_nocrypto : Option ℕ → Option Payload
says_nocrypto v = some (record { body = nocrypto; v = v })

module _ (d : Detail) (s : E2ee) (supports : s.supported ≡ true) where
  downgrade_open :
      (w : Worker)
      → s.worker ≡ some w
      → s.require ≡ false
      → s.was_encrypted ≡ false
      → ((downgrade d s).state ≡ unencrypted) × (in_clear (downgrade d s) ≡ true)
  unfolding downgrade set_worker_mode set_state
  downgrade_open w e r h = ground (arith, supports)

  downgrade_closed :
      s.require || (s.was_encrypted && not s.clear_agreed) ≡ true
      → ((downgrade d s).state ≡ blocked) × (in_clear (downgrade d s) ≡ false)
  unfolding downgrade set_worker_mode set_state
  downgrade_closed r = ground (arith, supports)

-- What `downgrade` leaves as it was.
record Kept (s t : E2ee) : Type 0 where
  users_same : t.users ≡ s.users
  supported_same : t.supported ≡ s.supported
  failed_same : t.transform_failed ≡ s.transform_failed
  generation_same : t.generation ≡ s.generation
  tasks_same : t.tasks ≡ s.tasks
  session_same : t.session ≡ s.session

downgrade-Kept : (d : Detail) (s : E2ee) → Kept s (downgrade d s)
unfolding downgrade set_worker_mode set_state
downgrade-Kept d s = ground arith

abbrev noted : String → E2ee → E2ee
noted p s = record s { session = record (s.session) { peer = some p; peer_supports = some false } }

-- What the message does to a call of two.
nocrypto_lem :
    (p : String) (v : Option ℕ) (s : E2ee)
    → s.users ≡ p ∷ []
    → s.supported ≡ true
    → on_message p (says_nocrypto v) s ≡ downgrade peer_unsupported (noted p s)
unfolding on_message only_user is_nocrypto
nocrypto_lem p v s e h = ground (arith, eq_refl p)

-- The last part of a handshake, in its generation.
record Signed (s t : E2ee) : Type 0 where
  state_set : t.state ≡ established
  was_set : t.was_encrypted ≡ true
  agreed_unset : t.clear_agreed ≡ false
  worker_same : t.worker ≡ s.worker
  users_same : t.users ≡ s.users
  supported_same : t.supported ≡ s.supported

module _ (c : Crypto) (ctx : Context) (a b : Bytes) where
  signed-Signed : (s : E2ee) → ctx.gen ≡ s.generation → Signed s (signed c ctx a b s)
  unfolding signed set_state
  signed-Signed s e = ground arith

  step-wakes :
      (s : E2ee) (i : ℕ) (kp : KeyPair)
      → task_at i s.tasks ≡ some (signing ctx a b)
      → step c s (wakes i kp) ≡ signed c ctx a b (record s { tasks = remove_at i s.tasks })
  unfolding step wake
  step-wakes s i kp q = ground arith

  wake-Signed :
      (s : E2ee) (i : ℕ) (kp : KeyPair)
      → ctx.gen ≡ s.generation
      → task_at i s.tasks ≡ some (signing ctx a b)
      → Signed s (step c s (wakes i kp))
  wake-Signed s i kp e q =
      let t = signed-Signed (record s { tasks = remove_at i s.tasks }) e in
      rw (step-wakes s i kp q) (record {
        state_set = t.state_set;
        was_set = t.was_set;
        agreed_unset = t.agreed_unset;
        worker_same = t.worker_same;
        users_same = t.users_same;
        supported_same = t.supported_same;
      })

  -- In an open call whose handshake has come to its last part, a message `nocrypto` before that part
  -- leaves the state on `established` and the worker in cleartext mode; the same message after it is
  -- refused: the state is `blocked` and the worker is out of cleartext mode.
  pub late_nocrypto :
      (p : String) (v : Option ℕ) (s : E2ee) (w : Worker) (i : ℕ) (kp : KeyPair)
      → IsOpen p s
      → s.worker ≡ some w
      → ctx.gen ≡ s.generation
      → task_at i s.tasks ≡ some (signing ctx a b)
      → let before = run c s (receives p (says_nocrypto v) ∷ wakes i kp ∷ []) in
        let after = run c s (wakes i kp ∷ receives p (says_nocrypto v) ∷ []) in
        ((before.state ≡ established) × (in_clear before ≡ true))
        × ((after.state ≡ blocked) × (in_clear after ≡ false))
  unfolding run step
  late_nocrypto p v s w i kp o there e q =
      let t = downgrade peer_unsupported (noted p s) in
      let k = downgrade-Kept peer_unsupported (noted p s) in
      let (u, clear) =
        downgrade_open peer_unsupported (noted p s) o.supports w there o.optional o.unsealed in
      let x = wake-Signed t i kp (e ∙ sym k.generation_same) (ap (task_at i) k.tasks_same ∙ q) in
      let y = wake-Signed s i kp e q in
      let t' = step c s (wakes i kp) in
      (
        rw (nocrypto_lem p v s o.pair o.supports)
            (x.state_set, ap clear_worker x.worker_same ∙ clear),
        rw (nocrypto_lem p v t' (y.users_same ∙ o.pair) (y.supported_same ∙ o.supports)) (
            downgrade_closed peer_unsupported (noted p t') (y.supported_same ∙ o.supports)
              (ground (arith, y.was_set, y.agreed_unset))),
      )

set_require_lem :
    (p : String) (s : E2ee)
    → s.users ≡ p ∷ []
    → s.supported ≡ true
    → s.transform_failed ≡ false
    → is_started p s ≡ true
    → set_require true s ≡ record s { require = true }
unfolding set_require recompute recompute_for start_with is_started can_encrypt
set_require_lem p s e h f g = rw (e, recompute_for) (ground arith)

started_still :
    (p : String) (s t : E2ee)
    → t.session ≡ (noted p s).session
    → is_started p s ≡ true
    → is_started p t ≡ true
unfolding is_started is_peer
started_still p s t e g = ground (arith, eq_refl p)

publishes :
    (b : Bool) (s : E2ee)
    → s.state ≡ unencrypted
    → may_publish_local_media (record s { require = b }) ≡ true
unfolding may_publish_local_media
publishes b s u = rw u refl

-- Encryption is required of an open call whose session is under way, and the peer says `nocrypto`. In
-- this order the call is refused and the worker stays out of cleartext mode; in the other, although
-- encryption is required, the state stays unencrypted, the worker stays in cleartext mode, and local
-- media may still be published.
pub late_require :
    (c : Crypto) (p : String) (v : Option ℕ) (s : E2ee) (w : Worker)
    → IsOpen p s
    → s.worker ≡ some w
    → is_started p s ≡ true
    → let before = run c s (requires true ∷ receives p (says_nocrypto v) ∷ []) in
      let after = run c s (receives p (says_nocrypto v) ∷ requires true ∷ []) in
      ((before.state ≡ blocked) × (in_clear before ≡ false))
      × ((after.require ≡ true)
          × (after.state ≡ unencrypted)
          × (in_clear after ≡ true)
          × (may_publish_local_media after ≡ true))
unfolding run step
late_require c p v s w o there g =
    let r = record s { require = true } in
    let t = downgrade peer_unsupported (noted p s) in
    let k = downgrade-Kept peer_unsupported (noted p s) in
    let (u, clear) =
      downgrade_open peer_unsupported (noted p s) o.supports w there o.optional o.unsealed in
    let still : is_started p t ≡ true = started_still p s t k.session_same g in
    (
      rw (set_require_lem p s o.pair o.supports o.works g, nocrypto_lem p v r o.pair o.supports)
          (downgrade_closed peer_unsupported (noted p r) o.supports refl),
      rw
          (
            nocrypto_lem p v s o.pair o.supports,
            set_require_lem p t (k.users_same ∙ o.pair) (k.supported_same ∙ o.supports)
                (k.failed_same ∙ o.works) still,
          )
          (refl, u, clear, publishes true t u),
    )
