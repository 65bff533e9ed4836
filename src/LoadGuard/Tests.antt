-- ===== src/LoadGuard/Tests.antt =====
-- A tab whose pages fail.
use sozvon.Base.{arith, ◌≤◌, ◌-◌, ◌≡◌, refl, true, false, none, List, [], ◌∷◌}
use sozvon.LoadGuard.{
  Storage, Page, fresh_page, get_reloads, set_reloads, decide, act, step, apply, Event,
  resource_fails, presses, load_fires, timer, max_auto_reloads,
}
use sozvon.LoadGuard.Reloads.{reloads_of, waits, reloads_bounded, reloads_unbounded, failing_pages}

machine : Unit {0}
unfolding get_reloads apply step act decide set_reloads reloads_of waits
machine = tt

abbrev failing : List Event
failing =
    resource_fails ∷ load_fires 900 ∷ resource_fails ∷ timer 1000 ∷ resource_fails ∷ timer 1000 ∷ []

abbrev writable : Storage
writable = record { readable = true; stores = true; removes = true; count = none }

-- A storage that is full.
abbrev full : Storage
full = record { readable = true; stores = false; removes = true; count = none }

abbrev tab : Page
tab = fresh_page writable

reloads_bounded_example : reloads_of failing tab ≤ max_auto_reloads - get_reloads tab.storage
reloads_bounded_example = reloads_bounded failing tab (λ r. refl) (unfold machine in refl)

-- The bound is met.
twice : reloads_of failing tab ≡ 2
unfolding machine
twice = refl

full_storage : reloads_of (failing_pages 50) (fresh_page full) ≡ 50
full_storage = reloads_unbounded 50 full refl refl (unfold machine in omega arith)

-- Press of the button: the count begins anew.
pressed :
    reloads_of
      (resource_fails
        ∷ timer 1000
        ∷ resource_fails
        ∷ timer 1000
        ∷ resource_fails
        ∷ timer 1000
        ∷ presses
        ∷ resource_fails
        ∷ timer 1000
        ∷ [])
      tab
    ≡ 3
unfolding machine
pressed = refl
