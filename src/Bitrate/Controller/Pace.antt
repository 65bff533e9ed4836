-- ===== src/Bitrate/Controller/Pace.antt =====
-- How fast a cap may fall and rise, and how often it is sent.
use sozvon.Base.{
  ℕ, ◌≤◌, ◌≡◌, sym, ◌∙◌, ◌⊎◌, inl, inr, Bool, true, Option, none, some, ltb, arith, Bool-cases,
}
use sozvon.Bitrate.Controller.{
  State, unknown, bad, good, hold, Measured, Controller, path_delay, confirm_path, observe, judge,
  is_warming, resumed, count, greatest, decreased, may_fall, may_rise, adjust, send, update, passed,
  lower_to,
}
use sozvon.Bitrate.Controller.Bounds.{adjust-cases}

-- The controller before `adjust`, in a poll with video.
unfoldable prepared : ℕ → Measured → Controller → Controller
prepared now m c =
    let c0 = path_delay now c in
    let st = judge c0.path m in
    let c1 = observe st m now c0 in count (is_warming now c1) st m.video_bps (resumed now c1)

-- What does not change before, once the stream has started.
record Same (c d : Controller) : Type 0 where
  cap_same : d.cap ≡ c.cap
  change_same : d.changed_at ≡ c.changed_at
  start_same : d.started ≡ c.started

path_delay-Same : (now : ℕ) (c : Controller) → Same c (path_delay now c)
unfolding path_delay
path_delay-Same now c = ground arith

observe-Same : (st : State) (m : Measured) (now : ℕ) (c : Controller) → Same c (observe st m now c)
unfolding observe confirm_path
observe-Same st m now c = ground arith

resumed-Same : (now : ℕ) (c : Controller) → c.started ≡ true → Same c (resumed now c)
unfolding resumed
resumed-Same now c s = ground arith

count-Same : (w : Bool) (st : State) (bps : ℕ) (c : Controller) → Same c (count w st bps c)
unfolding count
count-Same w unknown bps c = ground arith
count-Same w bad bps c = ground arith
count-Same w good bps c = ground arith
count-Same w hold bps c = ground arith

Same-trans : (a b c : Controller) → Same a b → Same b c → Same a c
Same-trans a b c p q = ground arith

prepared-Same :
    (now : ℕ) (m : Measured) (c : Controller) → c.started ≡ true → Same c (prepared now m c)
unfolding prepared
prepared-Same now m c s =
    let c0 = path_delay now c in
    let st = judge c0.path m in
    let c1 = observe st m now c0 in
    let p = Same-trans c c0 c1 (path_delay-Same now c) (observe-Same st m now c0) in
    let q = Same-trans c c1 (resumed now c1) p (resumed-Same now c1 (p.start_same ∙ s)) in
    Same-trans c (resumed now c1) _ q
      (count-Same (is_warming now c1) st m.video_bps (resumed now c1))

-- The cap `d` is no higher than `c`, where none is no cap at all.
abbrev pub IsLower : Option ℕ → Option ℕ → Type 0
IsLower none d = Unit {0}
IsLower (some c) none = ⊥
IsLower (some c) (some d) = d ≤ c

lower_to-IsLower : (cap : ℕ) (l : Option ℕ) → IsLower (some cap) (lower_to cap l)
lower_to-IsLower cap none = omega arith
lower_to-IsLower cap (some l) = elim (Bool-cases (ltb l cap)) [
  | inl e ↦ rw e (ground arith)
  | inr e ↦ rw e (omega arith)
]

decreased-IsLower : (arriving : ℕ) (cap : Option ℕ) → IsLower cap (decreased arriving cap)
unfolding decreased
decreased-IsLower arriving none = tt
decreased-IsLower arriving (some cap) = lower_to-IsLower cap _

send-cap : (now : ℕ) (old : Option ℕ) (c : Controller) → (send now old c).0.cap ≡ c.cap
unfolding send
send-cap now old c = ground arith

may_fall-passed :
    (now : ℕ) (c : Controller) → may_fall now c ≡ true → passed now c.changed_at 6000 ≡ true
may_fall-passed now c e = ground arith

may_rise-passed :
    (now : ℕ) (c : Controller) → may_rise now c ≡ true → passed now c.changed_at 15000 ≡ true
may_rise-passed now c e = ground arith

-- How a cap goes from `c` to `d`.
abbrev pub IsPaced : ℕ → Controller → Option ℕ → Type 0
IsPaced now c d =
    (d ≡ c.cap)
    ⊎ IsLower c.cap d × (passed now c.changed_at 6000 ≡ true)
    ⊎ (passed now c.changed_at 15000 ≡ true)

adjust-IsPaced : (now : ℕ) (c : Controller) → IsPaced now c (adjust now c).cap
adjust-IsPaced now c = elim (adjust-cases now c) [
  | inl e ↦ inl e
  | inr (inl (e, f)) ↦
      inr (inl (rw e (decreased-IsLower (greatest c.rates) c.cap), may_fall-passed now c f))
  | inr (inr (cap', q, e, r)) ↦ inr (inr (may_rise-passed now c r))
]

Same-IsPaced :
    (now : ℕ) (c d : Controller) (e : Option ℕ) → Same c d → IsPaced now d e → IsPaced now c e
Same-IsPaced now c d e p w = rw (sym p.cap_same, sym p.change_same) w

-- Once the stream has started, the cap after a poll with video is the one before, or is no higher
-- with at least 6 s gone since the last change, or comes at least 15 s after the last change.
pub update-pace :
    (now : ℕ) (m : Measured) (c : Controller)
    → c.started ≡ true
    → IsPaced now c (update now true m c).0.cap
unfolding update prepared
update-pace now m c s =
    let d = prepared now m c in
    let e : (send now c.cap (adjust now d)).0.cap ≡ (adjust now d).cap =
      send-cap now c.cap (adjust now d) in
    rw e (Same-IsPaced now c d (adjust now d).cap (prepared-Same now m c s) (adjust-IsPaced now d))
