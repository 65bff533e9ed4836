-- ===== src/E2ee/Machine.antt =====
-- static/e2ee.js: every entry point of the controller as an event, and the tasks that its awaits
-- leave, which may be woken in any order.
use sozvon.Base.{ℕ, zero, suc, String, Bool, Option, none, some, List, [], ◌∷◌}
use sozvon.E2ee.{
  Crypto, KeyPair, Payload, Task, starting, resuming, hashing, agreeing, salting, keying, chatting,
  signing, E2ee,
}
use sozvon.E2ee.Policy.{set_require, add_user, del_user, continue_in_clear, attach_sender}
use sozvon.E2ee.Handshake.{
  started, timer_fires, hashed, handle, on_message, agreed, salted, keyed, chat_keyed, signed,
}

pub data Event : Type 0 where
  requires : Bool → Event
  joins leaves : String → Event
  consents : Event
  attaches : Bool → Event
  receives : String → Option Payload → Event
  times_out : ℕ → Event
  -- the i-th waiting task goes on; a new key pair is `kp`
  wakes : ℕ → KeyPair → Event

unfoldable pub task_at : ℕ → List Task → Option Task
task_at i [] = none
task_at zero (t ∷ ts) = some t
task_at (suc i) (t ∷ ts) = task_at i ts

unfoldable pub remove_at : ℕ → List Task → List Task
remove_at i [] = []
remove_at zero (t ∷ ts) = ts
remove_at (suc i) (t ∷ ts) = t ∷ remove_at i ts

module _ (c : Crypto) where
  unfoldable pub wake : Task → KeyPair → E2ee → E2ee
  wake (starting peer gen) kp s = started c peer gen kp s
  wake (resuming p) kp s = handle p s
  wake (hashing pub_key) kp s = hashed c pub_key s
  wake (agreeing ctx) kp s = agreed c ctx s
  wake (salting ctx secret) kp s = salted c ctx secret s
  wake (keying ctx secret salt x xs) kp s = keyed c ctx secret salt x xs s
  wake (chatting ctx secret salt) kp s = chat_keyed c ctx secret salt s
  wake (signing ctx secret salt) kp s = signed c ctx secret salt s

  unfoldable pub step : E2ee → Event → E2ee
  unfolding task_at remove_at
  step s (requires b) = set_require b s
  step s (joins id) = add_user id s
  step s (leaves id) = del_user id s
  step s consents = continue_in_clear s
  step s (attaches works) = (attach_sender works s).0
  step s (receives from p) = on_message from p s
  step s (times_out gen) = timer_fires gen s
  step s (wakes i kp) = elim (task_at i s.tasks) [
    | none ↦ s
    | some t ↦ wake t kp (record s { tasks = remove_at i s.tasks })
  ]

  unfoldable pub run : E2ee → List Event → E2ee
  run s [] = s
  run s (e ∷ es) = run (step s e) es
