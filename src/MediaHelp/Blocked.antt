-- ===== src/MediaHelp/Blocked.antt =====
-- When the advice is to change the setting of the site.
use sozvon.Base.{
  Bool, true, false, ◌||◌, ◌&&◌, not, Option, none, some, List, [], ◌∷◌, ◌≡◌, refl, ap, ◌∙◌, arith,
  inl, inr, Bool-cases,
}
use sozvon.MediaHelp.{
  Kind, Os, android, ios, windows, mac, other, State, denied, granted, prompt, is_granted, is_empty,
  some_denied, every_granted, combine_states, Key, step_site, step_or_site, Line, browser_advice,
  advice, is_android,
}

abbrev pub is_site : Key → Bool
is_site step_site = true
is_site step_or_site = true
is_site _ = false

-- Whether a step is about the setting of the site.
abbrev pub names_site : List Line → Bool
names_site [] = false
names_site (l ∷ lines) = is_site l.key || names_site lines

some_denied-every_granted :
    (states : List (Option State)) → some_denied states ≡ true → every_granted states ≡ false
unfolding some_denied every_granted
some_denied-every_granted [] d = absurd (cc)
some_denied-every_granted (none ∷ states) d = refl
some_denied-every_granted (some denied ∷ states) d = refl
some_denied-every_granted (some granted ∷ states) d = some_denied-every_granted states d
some_denied-every_granted (some prompt ∷ states) d = refl

is_granted-combine_states :
    (states : List (Option State))
    → is_granted (combine_states states) ≡ not (is_empty states) && every_granted states
unfolding combine_states
is_granted-combine_states states = elim (Bool-cases (some_denied states)) [
  | inl e ↦ rw (e, some_denied-every_granted states e) (ground arith)
  | inr e ↦ elim (Bool-cases (not (is_empty states) && every_granted states)) [
    | inl f ↦ rw (e, f) refl
    | inr f ↦ rw (e, f) refl
  ]
]

names_site-browser :
    (kind : Kind) (state : Option State) (os : Os)
    → names_site (browser_advice kind state os).steps ≡ not (is_granted state)
unfolding browser_advice
names_site-browser kind none android = refl
names_site-browser kind none ios = refl
names_site-browser kind none windows = refl
names_site-browser kind none mac = refl
names_site-browser kind none other = refl
names_site-browser kind (some denied) os = refl
names_site-browser kind (some granted) os = refl
names_site-browser kind (some prompt) os = elim (Bool-cases (is_android os)) [
  | inl e ↦ rw e refl
  | inr e ↦ rw e refl
]

not_and : (a b : Bool) → not (not a && b) ≡ a || not b
not_and true b = refl
not_and false b = refl

-- In a browser, the advice is about the setting of the site exactly if no device was asked for or
-- some is not known to be allowed.
pub names_site-advice :
    (kind : Kind) (os : Os) (states : List (Option State))
    → names_site (advice kind (combine_states states) (record { os = os; app = none })).steps
      ≡ is_empty states || not (every_granted states)
unfolding advice
names_site-advice kind os states =
    names_site-browser kind (combine_states states) os
    ∙ ap not (is_granted-combine_states states)
    ∙ not_and (is_empty states) (every_granted states)
