-- ===== src/LoadGuard.antt =====
-- static/load-guard.js: when the page is uncovered, and when it is reloaded. Times are milliseconds
-- since the page began to load.
pub mod Reloads
pub mod Tests
use sozvon.Base.{
  ℕ, ◌+◌, Bool, true, false, ◌&&◌, ◌||◌, not, Option, none, some, ltb, leb, if◌then◌else◌,
}

abbrev pub slow_after : ℕ
slow_after = 10000

abbrev pub offer_reload_after : ℕ
offer_reload_after = 30000

abbrev pub max_auto_reloads : ℕ
max_auto_reloads = 2

pub data Action : Type 0 where
  wait slow slow_offer show reload fail : Action

-- The argument of `decide`.
pub record Load : Type 0 where
  pub loaded : Bool
  pub ready : Bool
  pub failed : ℕ
  pub elapsed : ℕ
  pub reloads : ℕ

unfoldable pub decide : Load → Action
decide s =
    if ltb 0 s.failed || s.loaded && not s.ready
    then if ltb s.reloads max_auto_reloads then reload else if s.ready then show else fail
    else if s.ready && (s.loaded || leb slow_after s.elapsed)
    then show
    else if leb offer_reload_after s.elapsed
    then slow_offer
    else if leb slow_after s.elapsed
    then slow
    else wait

-- The tab's storage: whether it can be read, whether it takes a count, whether it lets it be taken out,
-- each of which may throw on its own; and the count.
pub record Storage : Type 0 where
  pub readable : Bool
  pub stores : Bool
  pub removes : Bool
  pub count : Option ℕ

abbrev pub or_zero : Option ℕ → ℕ
or_zero none = 0
or_zero (some n) = n

unfoldable pub get_reloads : Storage → ℕ
get_reloads s = if s.readable then or_zero s.count else max_auto_reloads

-- A count of 0 takes the entry out; what throws is ignored.
unfoldable pub set_reloads : ℕ → Storage → Storage
set_reloads n s =
    if ltb 0 n
    then if s.stores then record s { count = some n } else s
    else if s.removes
    then record s { count = none }
    else s

-- The variables of a page, with the storage, which outlives it; `button` is whether the button that
-- reloads it is drawn.
pub record Page : Type 0 where
  pub failed : ℕ
  pub loaded : Bool
  pub ready : Bool
  pub done : Bool
  pub shown : Option Action
  pub visible : Bool
  pub button : Bool
  pub storage : Storage

abbrev pub fresh_page : Storage → Page
fresh_page storage = record {
  failed = 0;
  loaded = false;
  ready = false;
  done = false;
  shown = none;
  visible = false;
  button = false;
  storage = storage;
}

-- What `step` does, and whether the page is to be loaded again: after a pause, in which a page that
-- is done does nothing. A note is not drawn again where it is drawn already.
unfoldable pub act : Action → Page → Page × Bool
unfolding set_reloads get_reloads
act show p = (
  record p { done = true; visible = true; button = false; storage = set_reloads 0 p.storage },
  false,
)
act reload p = (
  record p {
    done = true;
    button = false;
    storage = set_reloads (get_reloads p.storage + 1) p.storage;
  },
  true,
)
act fail p = (record p { done = true; button = true }, false)
act wait p = (record p { shown = some wait }, false)
act slow p = (record p { shown = some slow; button = false }, false)
act slow_offer p = (record p { shown = some slow_offer; button = true }, false)

abbrev pub load_of : ℕ → Page → Load
load_of elapsed p = record {
  loaded = p.loaded;
  ready = p.ready;
  failed = p.failed;
  elapsed = elapsed;
  reloads = get_reloads p.storage;
}

unfoldable pub step : ℕ → Page → Page × Bool
unfolding act decide get_reloads
step elapsed p = if p.done then (p, false) else act (decide (load_of elapsed p)) p

-- What happens to a page: a script or stylesheet fails, the page becomes usable, the user presses the
-- button, `load` fires, which makes a step, and the timer makes one.
pub data Event : Type 0 where
  resource_fails becomes_ready presses : Event
  load_fires timer : ℕ → Event

unfoldable pub apply : Event → Page → Page × Bool
unfolding step set_reloads
apply resource_fails p = (record p { failed = p.failed + 1 }, false)
apply becomes_ready p = (record p { ready = true }, false)
apply presses p =
    if p.button then (record p { storage = set_reloads 0 p.storage }, true) else (p, false)
apply (load_fires elapsed) p = step elapsed (record p { loaded = true })
apply (timer elapsed) p = step elapsed p
