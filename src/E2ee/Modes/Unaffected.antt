-- ===== src/E2ee/Modes/Unaffected.antt =====
-- The operations that change nothing of what decides whether frames leave in clear.
use sozvon.Base.{ℕ, String, Bool, List, [], ◌∷◌, arith}
use sozvon.E2ee.{
  Bytes, KeyPair, Crypto, Body, Context, Task, Session, ChatKeys, E2ee, ensure_worker, spawn, send,
}
use sozvon.E2ee.Handshake.{started, timer_fires, finalize, next_key, salted, keyed}
use sozvon.E2ee.Modes.{Same}

pub users-Same : (us : List String) (s : E2ee) → Same s (record s { users = us })
users-Same us s = ground arith

pub session-Same : (x : Session) (s : E2ee) → Same s (record s { session = x })
session-Same x s = ground arith

pub tasks-Same : (ts : List Task) (s : E2ee) → Same s (record s { tasks = ts })
tasks-Same ts s = ground arith

pub transform-Same : (b : Bool) (s : E2ee) → Same s (record s { transform_failed = b })
transform-Same b s = ground arith

pub send-Same : (b : Body) (s : E2ee) → Same s (send b s)
unfolding send
send-Same b s = ground arith

pub spawn-Same : (t : Task) (s : E2ee) → Same s (spawn t s)
unfolding spawn
spawn-Same t s = ground arith

pub finalize-Same : (s : E2ee) → Same s (finalize s)
unfolding finalize
finalize-Same s = ground arith

pub ensure_worker-Same : (s : E2ee) → Same s (ensure_worker s)
unfolding ensure_worker
ensure_worker-Same s = ground arith

pub timer_fires-Same : (gen : ℕ) (s : E2ee) → Same s (timer_fires gen s)
unfolding timer_fires
timer_fires-Same gen s = ground arith

next_key-Same :
    (ctx : Context) (a b : Bytes) (xs : List (String × String)) (s : E2ee)
    → Same s (next_key ctx a b xs s)
unfolding next_key
next_key-Same ctx a b [] s = spawn-Same _ s
next_key-Same ctx a b (x ∷ xs) s = spawn-Same _ s

pub chat-Same : (x : ChatKeys) (s : E2ee) → Same s (record s { chat = x })
chat-Same x s = ground arith

module _ (c : Crypto) where
  pub started-Same :
      (p : String) (gen : ℕ) (kp : KeyPair) (s : E2ee) → Same s (started c p gen kp s)
  unfolding started
  started-Same p gen kp s = ground arith

  pub salted-Same : (ctx : Context) (a : Bytes) (s : E2ee) → Same s (salted c ctx a s)
  unfolding salted spawn
  salted-Same ctx a s = ground arith

  pub keyed-Same :
      (ctx : Context) (a b : Bytes) (x : String × String) (xs : List (String × String)) (s : E2ee)
      → Same s (keyed c ctx a b x xs s)
  unfolding keyed spawn
  keyed-Same ctx a b x [] s = ground arith
  keyed-Same ctx a b x (y ∷ ys) s = ground arith
