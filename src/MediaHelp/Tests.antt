-- ===== src/MediaHelp/Tests.antt =====
-- The advice at concrete inputs.
use sozvon.Base.{true, ◌≡◌, refl, none, some, [], ◌∷◌}
use sozvon.MediaHelp.{
  video, both, android, windows, denied, granted, combine_states, some_denied, every_granted,
  advice, browser_advice, reason_blocked,
}
use sozvon.MediaHelp.Blocked.{names_site, names_site-advice}

one_blocked :
    (advice both
      (combine_states (some granted ∷ some denied ∷ []))
      (record { os = windows; app = none })).reason.key
    ≡ reason_blocked
unfolding advice combine_states browser_advice some_denied every_granted
one_blocked = refl

names_site-advice_example :
    names_site
      (advice video (combine_states (none ∷ [])) (record { os = android; app = none })).steps
    ≡ true
unfolding every_granted
names_site-advice_example = names_site-advice video android (none ∷ [])
