-- ===== src/E2ee/Required.antt =====
-- A group that requires encryption: no frame leaves in clear.
use sozvon.Base.{
  ◌≡◌, refl, ◌≢◌, String, Bool, true, false, ◌&&◌, not, Option, List, [], ◌∷◌, arith, if_intro, All,
}
use sozvon.E2ee.{Crypto, Detail, State, E2ee, set_worker_mode, set_state, send, can_encrypt}
use sozvon.E2ee.Policy.{
  reset_peer, fail, downgrade, announce_no_crypto, set_peer, begin, start_with, recompute_for,
  recompute, set_require, continue_in_clear, is_started,
}
use sozvon.E2ee.Handshake.{signed}
use sozvon.E2ee.Machine.{Event, requires, step, run}
use sozvon.E2ee.Modes.{in_clear, Same, IsKept}
use sozvon.E2ee.Modes.Steps.{step-kept}

pub record IsShut (s : E2ee) : Type 0 where
  pub required : s.require ≡ true
  pub shut : in_clear s ≡ false

frame-IsShut : (s t : E2ee) → Same s t → IsShut s → IsShut t
frame-IsShut s t e g = ground arith

shuts-IsShut : (s : E2ee) → IsShut s → IsShut (set_worker_mode false s)
unfolding set_worker_mode
shuts-IsShut s g = ground arith

reset_peer-shuts : (s : E2ee) → s.require ≡ true → IsShut (reset_peer s)
unfolding reset_peer
reset_peer-shuts s e = ground arith

fail-IsShut : (d : Detail) (s : E2ee) → IsShut s → IsShut (fail d s)
unfolding fail
fail-IsShut d s g = ground arith

idles-IsShut : (s : E2ee) → IsShut s → IsShut (set_state State.idle Option.none s)
unfolding set_state
idles-IsShut s g = ground arith

begin-IsShut : (p : String) (s : E2ee) → IsShut s → IsShut (begin p s)
unfolding begin
begin-IsShut p s g = ground arith

downgrade-IsShut : (d : Detail) (s : E2ee) → IsShut s → IsShut (downgrade d s)
unfolding downgrade
downgrade-IsShut d s g = ground arith

continue_in_clear-IsShut : (s : E2ee) → IsShut s → IsShut (continue_in_clear s)
unfolding continue_in_clear
continue_in_clear-IsShut s g = ground arith

guarded : IsKept IsShut
guarded = record {
  frame = frame-IsShut;
  shuts = shuts-IsShut;
  resets = λ s g. reset_peer-shuts s g.required;
  fails = fail-IsShut;
  idles = idles-IsShut;
  begins = begin-IsShut;
  downgrades = downgrade-IsShut;
  consents = continue_in_clear-IsShut;
}

module _ (c : Crypto) where
  step-IsShut :
      (s : E2ee) (e : Event) → ((b : Bool) → e ≢ requires b) → IsShut s → IsShut (step c s e)
  unfolding signed
  step-IsShut s e n g =
      step-kept IsShut guarded c s e (λ b q. absurd (n b q)) (λ i kp ctx a b q t. ground arith) g

  run-IsShut :
      (es : List Event) (s : E2ee)
      → All (λ e. (b : Bool) → e ≢ requires b) es
      → IsShut s
      → IsShut (run c s es)
  unfolding run
  run-IsShut [] s h g = g
  run-IsShut (e ∷ es) s h g = run-IsShut es (step c s e) h.1 (step-IsShut s e h.0 g)

-- The option takes effect at once, but for a session that is already under way with the peer.
set_require_peer :
    (p : String) (s : E2ee)
    → s.require ≡ true
    → (in_clear s ≡ true → s.supported ≡ true)
    → is_started p s ≡ false
    → IsShut (recompute_for (p ∷ []) s)
unfolding recompute_for can_encrypt start_with begin reset_peer downgrade announce_no_crypto send
    set_peer
set_require_peer p s e can h = ground arith

set_require_for :
    (us : List String) (s : E2ee)
    → s.require ≡ true
    → (in_clear s ≡ true → s.supported ≡ true)
    → ((p : String) → us ≡ p ∷ [] → is_started p s ≡ false)
    → IsShut (recompute_for us s)
unfolding recompute_for
set_require_for [] s e can h =
    if_intro IsShut ((reset_peer s).require && not (can_encrypt (reset_peer s)))
      (downgrade-IsShut _ _ (reset_peer-shuts s e)) (idles-IsShut _ (reset_peer-shuts s e))
set_require_for (p ∷ []) s e can h = set_require_peer p s e can (h p refl)
set_require_for (p ∷ q ∷ rest) s e can h = downgrade-IsShut _ _ (reset_peer-shuts s e)

set_require-IsShut :
    (s : E2ee)
    → (in_clear s ≡ true → s.supported ≡ true)
    → ((p : String) → s.users ≡ p ∷ [] → is_started p s ≡ false)
    → IsShut (set_require true s)
unfolding set_require recompute is_started
set_require-IsShut s can h = set_require_for s.users (record s { require = true }) refl can h

module _ (c : Crypto) where
  -- Once the group requires encryption, no event of the call and no task, in any order, puts the
  -- worker in cleartext mode, until the option is given again: from any state whose browser supports
  -- encryption if its worker is in cleartext mode, and which has no session under way with its only
  -- user.
  pub required_never_clear :
      (s : E2ee) (es : List Event)
      → (in_clear s ≡ true → s.supported ≡ true)
      → ((p : String) → s.users ≡ p ∷ [] → is_started p s ≡ false)
      → All (λ e. (b : Bool) → e ≢ requires b) es
      → in_clear (run c s (requires true ∷ es)) ≡ false
  unfolding run step
  required_never_clear s es can h n = (run-IsShut c es _ n (set_require-IsShut s can h)).shut
