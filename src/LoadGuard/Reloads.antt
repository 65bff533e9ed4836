-- ===== src/LoadGuard/Reloads.antt =====
-- A page that fails is not reloaded for ever.
use sozvon.Base.{
  ℕ, zero, suc, ◌+◌, ◌≤◌, ◌<◌, ◌≡◌, refl, max, ◌-◌, inl, inr, Bool, true, false, ◌&&◌, not, List,
  [], ◌∷◌, if◌then◌else◌, arith, Bool-cases,
}
use sozvon.LoadGuard.{
  Action, wait, slow, slow_offer, show, reload, fail, decide, get_reloads, set_reloads, Storage,
  Page, fresh_page, act, load_of, step, Event, resource_fails, becomes_ready, presses, load_fires,
  timer, apply, max_auto_reloads,
}

abbrev pub is_press : Event → Bool
is_press presses = true
is_press _ = false

-- The automatic reloads over the events of a tab: a reload begins a new page.
unfoldable pub reloads_of : List Event → Page → ℕ
reloads_of [] p = 0
reloads_of (e ∷ es) p =
    let (p', again) = apply e p in
    reloads_of es (if again then fresh_page p'.storage else p')
    + (if again && not (is_press e) then 1 else 0)

-- The user presses no button and no page of the tab is uncovered.
unfoldable pub waits : List Event → Page → Bool
waits [] p = true
waits (e ∷ es) p =
    let (p', again) = apply e p in
    not (is_press e) && not p'.visible && waits es (if again then fresh_page p'.storage else p')

abbrev pub one_if : Bool → ℕ
one_if true = 1
one_if false = 0

-- A storage that can be read takes a count.
abbrev pub Works : Storage → Type 0
Works s = s.readable ≡ true → s.stores ≡ true

-- A decision reloads the page only while the count is below the most, and counts it; otherwise the
-- count changes only when the page is uncovered.
record Counts (p : Page) (r : Page × Bool) : Type 0 where
  counted : get_reloads r.0.storage ≡ get_reloads p.storage + one_if r.1
  low : get_reloads p.storage + one_if r.1 ≤ max max_auto_reloads (get_reloads p.storage)
  works : Works r.0.storage

reload_low :
    (t : ℕ) (p : Page) → decide (load_of t p) ≡ reload → get_reloads p.storage < max_auto_reloads
unfolding decide
reload_low t p e = ground arith

stored :
    (v : Storage)
    → Works v
    → get_reloads v < max_auto_reloads
    → (get_reloads (set_reloads (get_reloads v + 1) v) ≡ get_reloads v + 1)
      × Works (set_reloads (get_reloads v + 1) v)
unfolding set_reloads get_reloads
stored v w h = elim (Bool-cases v.readable) [
  | inl e ↦ let s = w e in ground arith
  | inr e ↦ ground arith
]

action-Counts :
    (a : Action) (p : Page)
    → (a ≡ reload → get_reloads p.storage < max_auto_reloads)
    → Works p.storage
    → (act a p).0.visible ≡ false
    → Counts p (act a p)
unfolding act
action-Counts show p h w k = cc
action-Counts reload p h w k =
    let (e, v) = stored p.storage w (h refl) in
    record { counted = e; low = omega (arith, h refl); works = v }
action-Counts fail p h w k = record { counted = omega arith; low = omega arith; works = w }
action-Counts wait p h w k = record { counted = omega arith; low = omega arith; works = w }
action-Counts slow p h w k = record { counted = omega arith; low = omega arith; works = w }
action-Counts slow_offer p h w k = record { counted = omega arith; low = omega arith; works = w }

step-done : (t : ℕ) (p : Page) → p.done ≡ true → step t p ≡ (p, false)
unfolding step
step-done t p e = ground arith

step-act : (t : ℕ) (p : Page) → p.done ≡ false → step t p ≡ act (decide (load_of t p)) p
unfolding step
step-act t p e = ground arith

step-Counts :
    (t : ℕ) (p : Page) → Works p.storage → (step t p).0.visible ≡ false → Counts p (step t p)
step-Counts t p w h = elim (Bool-cases p.done) [
  | inl e ↦ rw (step-done t p e) (record { counted = omega arith; low = omega arith; works = w })
  | inr e ↦
      rw (step-act t p e)
        (action-Counts (decide (load_of t p)) p (reload_low t p) w (rw (step-act t p e) at h))
]

apply-Counts :
    (e : Event) (p : Page)
    → is_press e ≡ false
    → Works p.storage
    → (apply e p).0.visible ≡ false
    → Counts p (apply e p)
unfolding apply
apply-Counts resource_fails p n w h = record { counted = omega arith; low = omega arith; works = w }
apply-Counts becomes_ready p n w h = record { counted = omega arith; low = omega arith; works = w }
apply-Counts presses p n w h = absurd (cc)
apply-Counts (load_fires t) p n w h =
    let c = step-Counts t (record p { loaded = true }) w h in
    record { counted = c.counted; low = c.low; works = c.works }
apply-Counts (timer t) p n w h = step-Counts t p w h

-- Where a storage that can be read takes a count too, the pages of a tab are reloaded by themselves
-- at most twice until one is uncovered or the user presses the button, counting the reloads that the
-- storage already counts; where it cannot be read, never.
pub reloads_bounded :
    (es : List Event) (p : Page)
    → Works p.storage
    → waits es p ≡ true
    → reloads_of es p ≤ max_auto_reloads - get_reloads p.storage
unfolding reloads_of waits
reloads_bounded [] p w h = omega arith
reloads_bounded (e ∷ es) p w h =
    let idle : is_press e ≡ false = ground arith in
    let hidden : (apply e p).0.visible ≡ false = ground arith in
    let c = apply-Counts e p idle w hidden in
    elim (Bool-cases (apply e p).1) [
      | inl a ↦
          let rest = reloads_bounded es (fresh_page (apply e p).0.storage) c.works in
          ground (arith, c.counted, c.low, rest)
      | inr a ↦
          let rest = reloads_bounded es (apply e p).0 c.works in
          ground (arith, c.counted, c.low, rest)
    ]

-- `n` pages, in each of which a script or stylesheet fails before the timer makes a step.
unfoldable pub failing_pages : ℕ → List Event
failing_pages zero = []
failing_pages (suc n) = resource_fails ∷ timer 1000 ∷ failing_pages n

-- Where the storage can be read and counts fewer than two reloads, but takes no count, the pages of a
-- tab that all fail are reloaded by themselves every time, however many they are.
pub reloads_unbounded :
    (n : ℕ) (s : Storage)
    → s.readable ≡ true
    → s.stores ≡ false
    → get_reloads s < max_auto_reloads
    → reloads_of (failing_pages n) (fresh_page s) ≡ n
unfolding reloads_of failing_pages apply step act decide set_reloads
reloads_unbounded zero s r w h = refl
reloads_unbounded (suc n) s r w h = let rest = reloads_unbounded n s r w h in ground (arith, rest)
