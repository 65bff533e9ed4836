-- ===== src/GuestName/Clean.antt =====
-- What `clean` lets through, and the form of a pseudonym.
use sozvon.Base.{
  ℕ, zero, suc, ◌≢◌, ◌≤◌, ◌≡◌, refl, true, false, Option, none, some, [], ◌∷◌, take, length,
  length-take, ◌==◌, All, arith, Bool-cases, if_intro, inl, inr,
}
use sozvon.GuestName.{
  Text, is_control, is_space, remove_controls, space_before, collapse, trim_start, end_at, trim_end,
  clean_text, clean,
}

-- A unit that may be shown: no control, and no white space but the space.
abbrev pub IsShowable : ℕ → Type 0
IsShowable c = (is_control c ≡ false) × (is_space c ≡ true → c ≡ 32)

-- No two spaces in a row.
abbrev pub AreSingle : Text → Type 0
AreSingle [] = Unit
AreSingle (c ∷ []) = Unit
AreSingle (c ∷ d ∷ s) = (c ≡ 32 → d ≡ 32 → ⊥) × AreSingle (d ∷ s)

remove_controls-All : (s : Text) → All (λ c. is_control c ≡ false) (remove_controls s)
unfolding remove_controls
remove_controls-All [] = tt
remove_controls-All (c ∷ s) = elim (Bool-cases (is_control c)) [
  | inl e ↦ rw (e, remove_controls) (remove_controls-All s)
  | inr e ↦ rw (e, remove_controls) (e, remove_controls-All s)
]

space_before-All : (s : Text) → All IsShowable s → All IsShowable (space_before s)
unfolding space_before is_control
space_before-All [] h = ((refl, λ e. refl), tt)
space_before-All (c ∷ s) h = if_intro (All IsShowable) (c == 32) h ((refl, λ e. refl), h)

collapse-All : (s : Text) → All (λ c. is_control c ≡ false) s → All IsShowable (collapse s)
unfolding collapse
collapse-All [] h = tt
collapse-All (c ∷ s) h = elim (Bool-cases (is_space c)) [
  | inl e ↦ rw (e, collapse) (space_before-All (collapse s) (collapse-All s h.1))
  | inr e ↦ rw (e, collapse) ((h.0, λ q. absurd (cc)), collapse-All s h.1)
]

AreSingle-cons : (c : ℕ) (s : Text) → c ≢ 32 → AreSingle s → AreSingle (c ∷ s)
AreSingle-cons c [] n h = tt
AreSingle-cons c (d ∷ s) n h = ((λ p q. n p), h)

AreSingle-space_before : (s : Text) → AreSingle s → AreSingle (space_before s)
unfolding space_before
AreSingle-space_before [] h = tt
AreSingle-space_before (c ∷ s) h = elim (Bool-cases (c == 32)) [
  | inl e ↦ rw (e, space_before) h
  | inr e ↦ rw (e, space_before) ((λ p q. ground arith), h)
]

not_space : (c : ℕ) → is_space c ≡ false → c ≢ 32
unfolding is_space
not_space c e q = ground arith

AreSingle-collapse : (s : Text) → AreSingle (collapse s)
unfolding collapse
AreSingle-collapse [] = tt
AreSingle-collapse (c ∷ s) = elim (Bool-cases (is_space c)) [
  | inl e ↦ rw (e, collapse) (AreSingle-space_before (collapse s) (AreSingle-collapse s))
  | inr e ↦ rw (e, collapse) (AreSingle-cons c (collapse s) (not_space c e) (AreSingle-collapse s))
]

AreSingle-tail : (c : ℕ) (s : Text) → AreSingle (c ∷ s) → AreSingle s
AreSingle-tail c [] h = tt
AreSingle-tail c (d ∷ s) h = h.1

AreSingle-trim_start : (s : Text) → AreSingle s → AreSingle (trim_start s)
unfolding trim_start
AreSingle-trim_start [] h = tt
AreSingle-trim_start (c ∷ s) h =
    if_intro AreSingle (is_space c) (AreSingle-trim_start s (AreSingle-tail c s h)) h

AreSingle-end_at :
    (c d : ℕ) (r : Text)
    → (c ≡ 32 → d ≡ 32 → ⊥)
    → AreSingle (end_at d r)
    → AreSingle (end_at c (end_at d r))
unfolding end_at
AreSingle-end_at c d (x ∷ r) n h = (n, h)
AreSingle-end_at c d [] n h = elim (Bool-cases (is_space d)) [
  | inl e ↦ rw (e, end_at) (if_intro AreSingle (is_space c) tt tt)
  | inr e ↦ rw (e, end_at) (n, tt)
]

AreSingle-trim_end : (s : Text) → AreSingle s → AreSingle (trim_end s)
unfolding trim_end
AreSingle-trim_end [] h = tt
AreSingle-trim_end (c ∷ []) h = unfold end_at in if_intro AreSingle (is_space c) tt tt
AreSingle-trim_end (c ∷ d ∷ s) h =
    AreSingle-end_at c d (trim_end s) h.0 (AreSingle-trim_end (d ∷ s) h.1)

take_nothing : (c n : ℕ) → AreSingle (take (suc n) (c ∷ []))
take_nothing c zero = tt
take_nothing c (suc n) = tt

AreSingle-take : (n : ℕ) (s : Text) → AreSingle s → AreSingle (take n s)
AreSingle-take zero s h = tt
AreSingle-take (suc n) [] h = tt
AreSingle-take (suc n) (c ∷ []) h = take_nothing c n
AreSingle-take (suc zero) (c ∷ d ∷ s) h = tt
AreSingle-take (suc (suc n)) (c ∷ d ∷ s) h = (h.0, AreSingle-take (suc n) (d ∷ s) h.1)

module _ (P : ℕ → Type 0) where
  All-trim_start : (s : Text) → All P s → All P (trim_start s)
  unfolding trim_start
  All-trim_start [] h = tt
  All-trim_start (c ∷ s) h = if_intro (All P) (is_space c) (All-trim_start s h.1) h

  All-end_at : (c : ℕ) (r : Text) → P c → All P r → All P (end_at c r)
  unfolding end_at
  All-end_at c [] p h = if_intro (All P) (is_space c) tt (p, tt)
  All-end_at c (d ∷ r) p h = (p, h)

  All-trim_end : (s : Text) → All P s → All P (trim_end s)
  unfolding trim_end
  All-trim_end [] h = tt
  All-trim_end (c ∷ s) h = All-end_at c (trim_end s) h.0 (All-trim_end s h.1)

  All-take : (n : ℕ) (s : Text) → All P s → All P (take n s)
  All-take zero s h = tt
  All-take (suc n) [] h = tt
  All-take (suc n) (c ∷ s) h = (h.0, All-take n s h.1)

-- A name that is shown has at most 64 units, no control, no white space but the space, and no two
-- spaces in a row, whatever was sent.
pub clean-AreShowable :
    (given : Option Text)
    → (length (clean given) ≤ 64) × All IsShowable (clean given) × AreSingle (clean given)
unfolding clean clean_text
clean-AreShowable none = (omega arith, tt, tt)
clean-AreShowable (some t) =
    let s = collapse (remove_controls t) in
    let shown =
      All-trim_end IsShowable (trim_start s)
        (All-trim_start IsShowable s (collapse-All (remove_controls t) (remove_controls-All t))) in
    let single =
      AreSingle-trim_end (trim_start s)
        (AreSingle-trim_start s (AreSingle-collapse (remove_controls t))) in
    (
      omega (arith, length-take 64 (trim_end (trim_start s))),
      All-take IsShowable 64 _ shown,
      AreSingle-take 64 _ single,
    )
