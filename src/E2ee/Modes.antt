-- ===== src/E2ee/Modes.antt =====
-- Properties of the controller that read only what decides whether frames leave in clear. To be
-- kept by every step it is enough that such a property is kept by the few operations that change
-- one of these fields: this file has the interface, `Modes.Steps` the theorem.
pub mod Unaffected
pub mod Steps
use sozvon.Base.{ℕ, ◌≡◌, String, Bool, true, false, Option, none, some}
use sozvon.E2ee.{Worker, Detail, State, idle, E2ee, set_worker_mode, set_state}
use sozvon.E2ee.Policy.{reset_peer, fail, downgrade, begin, continue_in_clear}

abbrev pub clear_worker : Option Worker → Bool
clear_worker none = false
clear_worker (some w) = w.cleartext

-- The worker passes frames on as they are.
abbrev pub in_clear : E2ee → Bool
in_clear s = clear_worker s.worker

-- The two states agree in the fields that matter.
pub record Same (s t : E2ee) : Type 0 where
  pub require_same : t.require ≡ s.require
  pub supported_same : t.supported ≡ s.supported
  pub was_same : t.was_encrypted ≡ s.was_encrypted
  pub agreed_same : t.clear_agreed ≡ s.clear_agreed
  pub state_same : t.state ≡ s.state
  pub clear_same : in_clear t ≡ in_clear s

pub record IsKept (P : E2ee → Type 0) : Type 0 where
  pub frame : (s t : E2ee) → Same s t → P s → P t
  pub shuts : (s : E2ee) → P s → P (set_worker_mode false s)
  pub resets : (s : E2ee) → P s → P (reset_peer s)
  pub fails : (d : Detail) (s : E2ee) → P s → P (fail d s)
  pub idles : (s : E2ee) → P s → P (set_state idle none s)
  pub begins : (p : String) (s : E2ee) → P s → P (begin p s)
  pub downgrades : (d : Detail) (s : E2ee) → P s → P (downgrade d s)
  pub consents : (s : E2ee) → P s → P (continue_in_clear s)
