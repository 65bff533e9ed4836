-- ===== src/IceRecovery/Spacing.antt =====
-- When a connection is restarted, and how far apart, over any sequence of events.
use sozvon.Base.{
  ℕ, ◌+◌, ◌<◌, ◌≡◌, refl, sym, ◌∙◌, String, Bool, true, false, Option, none, some, List, [], ◌∷◌,
  if◌then◌else◌, lookup, insert, erase, lookup-insert, lookup-erase, str_eq, eq_iff, eq_refl, arith,
  All, Bool-cases, inl, inr,
}
use mathlib.Core.Path.{subst}
use sozvon.IceRecovery.{
  IceState, connected, completed, Stream, Recovery, resume, observe, decide, update, restarted,
  forget, or_fresh, min_gap,
}

pub data Event : Type 0 where
  resumes : ℕ → Event
  updates : String → IceState → ℕ → Event
  restarts : String → ℕ → Event
  forgets : String → Event

unfoldable pub step : Recovery → Event → Recovery
step r (resumes now) = resume now r
step r (updates id state now) = (update id state now r).0
step r (restarts id now) = restarted id now r
step r (forgets id) = forget id r

-- The times at which `update` asks for `id` to be restarted.
unfoldable pub asked : String → Recovery → List Event → List ℕ
asked id r [] = []
asked id r (updates j state now ∷ es) =
    let rest = asked id (step r (updates j state now)) es in
    elim (update j state now r).1 [
      | none ↦ rest
      | some why ↦ if str_eq j id then now ∷ rest else rest
    ]
asked id r (e ∷ es) = asked id (step r e) es

-- A report that the connection is up, which starts its history afresh.
abbrev pub is_up : IceState → Bool
is_up connected = true
is_up completed = true
is_up _ = false

-- The event is about another connection, or a report before `until` that `id` is not up.
abbrev pub IsEarly : String → ℕ → Event → Type 0
IsEarly id until (resumes now) = Unit {0}
IsEarly id until (updates j state now) = str_eq j id ≡ true → (now < until) × (is_up state ≡ false)
IsEarly id until (restarts j now) = str_eq j id ≡ false
IsEarly id until (forgets j) = str_eq j id ≡ false

-- When `id` was last restarted.
stamp : String → List (String × Stream) → Option ℕ
stamp id m = (or_fresh (lookup id m)).restarted_at

stamp-insert :
    (id j : String) (v : Stream) (m : List (String × Stream))
    → stamp id (insert j v m) ≡ (if str_eq j id then v.restarted_at else stamp id m)
unfolding stamp
stamp-insert id j v m = ground (arith, lookup-insert j id v m)

stamp-erase :
    (id j : String) (m : List (String × Stream))
    → str_eq j id ≡ false
    → stamp id (erase j m) ≡ stamp id m
unfolding stamp
stamp-erase id j m h = ground (arith, lookup-erase j id m)

observe-restarted_at :
    (state : IceState) (now : ℕ) (s : Stream)
    → is_up state ≡ false
    → (observe state now s).restarted_at ≡ s.restarted_at
unfolding observe
observe-restarted_at state now s h = ground arith

decide-early :
    (until : ℕ) (state : IceState) (now t : ℕ) (s : Stream)
    → s.restarted_at ≡ some t
    → now < t + min_gap
    → decide until state now s ≡ (s, none)
unfolding decide
decide-early until state now t s e h = ground arith

-- A report of `id` itself, too soon after its restart at `t`.
update_self-early :
    (id : String) (state : IceState) (now t : ℕ) (r : Recovery)
    → stamp id r.streams ≡ some t
    → now < t + min_gap
    → is_up state ≡ false
    → (stamp id (update id state now r).0.streams ≡ some t) × ((update id state now r).1 ≡ none)
unfolding update
update_self-early id state now t r e h up =
    let s = observe state now (or_fresh (lookup id r.streams)) in
    let kept : s.restarted_at ≡ some t =
      observe-restarted_at state now _ up ∙ (unfold stamp in e) in
    rw (decide-early r.suspect_until state now t s kept h, stamp-insert, eq_refl) (kept, refl)

update-none :
    (id j : String) (state : IceState) (now t : ℕ) (r : Recovery)
    → stamp id r.streams ≡ some t
    → str_eq j id ≡ true
    → now < t + min_gap
    → is_up state ≡ false
    → (update j state now r).1 ≡ none
update-none id j state now t r e q h up =
    subst (λ k. (update k state now r).1 ≡ none) (sym ((eq_iff j id).0 q))
      (update_self-early id state now t r e h up).1

update_other :
    (id j : String) (state : IceState) (now : ℕ) (r : Recovery)
    → str_eq j id ≡ false
    → stamp id (update j state now r).0.streams ≡ stamp id r.streams
unfolding update
update_other id j state now r h = rw (stamp-insert, h)

step-early :
    (id : String) (t : ℕ) (r : Recovery) (e : Event)
    → stamp id r.streams ≡ some t
    → IsEarly id (t + min_gap) e
    → stamp id (step r e).streams ≡ some t
unfolding step resume restarted forget
step-early id t r (resumes now) e h = e
step-early id t r (updates j state now) e h = elim (Bool-cases (str_eq j id)) [
  | inl q ↦
      subst (λ k. stamp id (update k state now r).0.streams ≡ some t) (sym ((eq_iff j id).0 q))
        (update_self-early id state now t r e (h q).0 (h q).1).0
  | inr q ↦ update_other id j state now r q ∙ e
]
step-early id t r (restarts j now) e h = rw (stamp-insert, h) e
step-early id t r (forgets j) e h = rw (stamp-erase id j r.streams h) e

asked-early :
    (id : String) (t : ℕ) (es : List Event) (r : Recovery)
    → stamp id r.streams ≡ some t
    → All (IsEarly id (t + min_gap)) es
    → asked id r es ≡ []
unfolding asked
asked-early id t [] r e h = refl
asked-early id t (resumes now ∷ es) r e h = asked-early id t es _ (step-early id t r _ e h.0) h.1
asked-early id t (restarts j now ∷ es) r e h = asked-early id t es _ (step-early id t r _ e h.0) h.1
asked-early id t (forgets j ∷ es) r e h = asked-early id t es _ (step-early id t r _ e h.0) h.1
asked-early id t (updates j state now ∷ es) r e h =
    let rest = asked-early id t es (step r (updates j state now)) (step-early id t r _ e h.0) h.1 in
    elim (Bool-cases (str_eq j id)) [
      | inl q ↦ ground (arith, rest, update-none id j state now t r e q (h.0 q).0 (h.0 q).1)
      | inr q ↦ ground (arith, rest)
    ]

-- A connection that was restarted at `t` is not asked to restart by reports before `t + min_gap`,
-- whatever is reported about it and about the others, unless it comes up or is forgotten, or is
-- restarted by others, in between.
pub no_early_restart :
    (id : String) (t : ℕ) (es : List Event) (r : Recovery) (s : Stream)
    → lookup id r.streams ≡ some s
    → s.restarted_at ≡ some t
    → All (IsEarly id (t + min_gap)) es
    → asked id r es ≡ []
unfolding stamp
no_early_restart id t es r s l e h = asked-early id t es r (rw (l, stamp) e) h
