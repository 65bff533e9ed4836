-- ===== src/E2ee/Consent.antt =====
-- A call that was encrypted is not carried on in clear without the user's consent, and while the
-- state says `established` nothing goes out in clear.
use sozvon.Base.{ℕ, ◌≡◌, String, true, false, Option, some, arith}
use sozvon.E2ee.{
  Bytes, KeyPair, Crypto, Context, Detail, State, established, signing, E2ee, set_worker_mode,
  set_state,
}
use sozvon.E2ee.Policy.{reset_peer, fail, downgrade, begin, continue_in_clear}
use sozvon.E2ee.Handshake.{signed}
use sozvon.E2ee.Machine.{Event, wakes, step, task_at}
use sozvon.E2ee.Modes.{in_clear, Same, IsKept}
use sozvon.E2ee.Modes.Steps.{step-kept}

pub record IsConsented (s : E2ee) : Type 0 where
  pub asked : s.was_encrypted ≡ true → s.clear_agreed ≡ false → in_clear s ≡ false
  pub secure : s.state ≡ established → in_clear s ≡ false

frame-IsConsented : (s t : E2ee) → Same s t → IsConsented s → IsConsented t
frame-IsConsented s t e g = ground arith

shuts-IsConsented : (s : E2ee) → IsConsented s → IsConsented (set_worker_mode false s)
unfolding set_worker_mode
shuts-IsConsented s g = ground arith

reset_peer-IsConsented : (s : E2ee) → IsConsented s → IsConsented (reset_peer s)
unfolding reset_peer
reset_peer-IsConsented s g = ground arith

fail-IsConsented : (d : Detail) (s : E2ee) → IsConsented s → IsConsented (fail d s)
unfolding fail
fail-IsConsented d s g = ground arith

idles-IsConsented : (s : E2ee) → IsConsented s → IsConsented (set_state State.idle Option.none s)
unfolding set_state
idles-IsConsented s g = ground arith

begin-IsConsented : (p : String) (s : E2ee) → IsConsented s → IsConsented (begin p s)
unfolding begin
begin-IsConsented p s g = ground arith

downgrade-IsConsented : (d : Detail) (s : E2ee) → IsConsented s → IsConsented (downgrade d s)
unfolding downgrade
downgrade-IsConsented d s g = ground arith

continue_in_clear-IsConsented : (s : E2ee) → IsConsented s → IsConsented (continue_in_clear s)
unfolding continue_in_clear
continue_in_clear-IsConsented s g = ground arith

consented : IsKept IsConsented
consented = record {
  frame = frame-IsConsented;
  shuts = shuts-IsConsented;
  resets = reset_peer-IsConsented;
  fails = fail-IsConsented;
  idles = idles-IsConsented;
  begins = begin-IsConsented;
  downgrades = downgrade-IsConsented;
  consents = continue_in_clear-IsConsented;
}

module _ (c : Crypto) where
  -- Each event keeps the two rules -- a call that was encrypted has its worker out of cleartext mode
  -- until the user agrees, and so has one whose state is `established` -- provided that the last
  -- part of a handshake does not run while the worker is in cleartext mode.
  pub step-IsConsented :
      (s : E2ee) (e : Event)
      → ((i : ℕ) (kp : KeyPair) (ctx : Context) (a b : Bytes)
          → e ≡ wakes i kp
          → task_at i s.tasks ≡ some (signing ctx a b)
          → in_clear s ≡ false)
      → IsConsented s
      → IsConsented (step c s e)
  unfolding signed
  step-IsConsented s e n g =
      step-kept IsConsented consented c s e (λ b q. record { asked = g.asked; secure = g.secure })
        (λ i kp ctx a b q t. ground (arith, n i kp ctx a b q t)) g
