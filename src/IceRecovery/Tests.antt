-- ===== src/IceRecovery/Tests.antt =====
-- Recovery at concrete inputs.
use sozvon.Base.{◌≡◌, refl, ◌≢◌, none, some, [], ◌∷◌, arith, lookup, insert, erase}
use sozvon.IceRecovery.{
  disconnected, checking, Recovery, start, update, restarted, resume, observe, decide,
}
use sozvon.IceRecovery.Spacing.{resumes, updates, step, asked, no_early_restart}
use sozvon.IceRecovery.Outage.{outage_restarts}

machine : Unit {0}
unfolding asked step update resume restarted observe decide lookup insert erase
machine = tt

-- A restart right after the signalling resumed, and no second one at once.
resumed_run :
    asked "a" start (
      resumes 100
      ∷ updates "a" disconnected 200
      ∷ updates "a" disconnected 300
      ∷ updates "a" disconnected 5200
      ∷ [])
    ≡ 200 ∷ 5200 ∷ []
unfolding machine
resumed_run = refl

abbrev just_restarted : Recovery
just_restarted = record {
  streams = ("a", record { disconnected_since = none; restarted_at = some 1000 }) ∷ [];
  suspect_until = 15000;
}

no_early_restart_example :
    asked "a" just_restarted (updates "a" disconnected 3000 ∷ updates "b" disconnected 3100 ∷ [])
    ≡ []
unfolding machine
no_early_restart_example =
    no_early_restart "a" 1000 (updates "a" disconnected 3000 ∷ updates "b" disconnected 3100 ∷ [])
      just_restarted (record { disconnected_since = none; restarted_at = some 1000 }) refl refl
      ((λ e. (omega arith, refl)), ((λ e. cc), tt))

outage_restarts_example :
    asked "a" start
      (updates "a" disconnected 10 ∷ updates "b" checking 20 ∷ updates "a" disconnected 9000 ∷ [])
    ≢ []
unfolding machine
outage_restarts_example =
    outage_restarts "a" 10 9000 (updates "b" checking 20 ∷ []) start refl (refl, tt) (omega arith)
