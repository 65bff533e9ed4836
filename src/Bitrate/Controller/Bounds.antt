-- ===== src/Bitrate/Controller/Bounds.antt =====
-- The caps that a controller asks for are in the allowed range.
use sozvon.Base.{
  ℕ, ◌*◌, ◌≤◌, ◌≡◌, refl, min, ◌⊎◌, inl, inr, Bool, true, Option, none, some, ltb, leb, ◌==◌,
  if◌then◌else◌, arith, Bool-cases, Option-cases,
}
use sozvon.Bitrate.{min_cap, max_cap, amount, sanitize_cap}
use sozvon.Bitrate.Controller.{
  State, unknown, bad, good, hold, Measured, Controller, new, path_delay, confirm_path, observe,
  judge, is_warming, stopped, starts_capped, resumed, count, greatest, decreased, increased,
  lower_to, raise_to, is_unused, ceiling, may_fall, may_rise, adjust, send, update,
}

abbrev pub InRange : Option ℕ → Type 0
InRange none = Unit {0}
InRange (some cap) = (min_cap ≤ cap) × (cap ≤ max_cap)

pub record IsAllowed (c : Controller) : Type 0 where
  pub cap_range : InRange c.cap
  pub start_range : InRange c.start_cap

sanitize_cap-InRange : (m : ℕ) → InRange (sanitize_cap (amount m))
unfolding sanitize_cap
sanitize_cap-InRange m = elim (Bool-cases (m == 0)) [
  | inl e ↦ rw e tt
  | inr e ↦ elim (Bool-cases (ltb (max_cap * 1000) m)) [
    | inl h ↦ rw (e, h) tt
    | inr h ↦ rw (e, h) (ground arith)
  ]
]

pub new-IsAllowed : (start : Option ℕ) (camera : Bool) → IsAllowed (new start camera)
new-IsAllowed none camera = record { cap_range = tt; start_range = tt }
new-IsAllowed (some s) camera = record {
  cap_range = tt;
  start_range = sanitize_cap-InRange (s * 1000);
}

-- A step that alters neither cap.
kept : (c d : Controller) → d.cap ≡ c.cap → d.start_cap ≡ c.start_cap → IsAllowed c → IsAllowed d
kept c d e f v = record { cap_range = rw e v.cap_range; start_range = rw f v.start_range }

path_delay-kept :
    (now : ℕ) (c : Controller)
    → ((path_delay now c).cap ≡ c.cap) × ((path_delay now c).start_cap ≡ c.start_cap)
unfolding path_delay
path_delay-kept now c = (ground arith, ground arith)

observe-kept :
    (st : State) (m : Measured) (now : ℕ) (c : Controller)
    → ((observe st m now c).cap ≡ c.cap) × ((observe st m now c).start_cap ≡ c.start_cap)
unfolding observe confirm_path
observe-kept st m now c = (ground arith, ground arith)

count-kept :
    (w : Bool) (st : State) (bps : ℕ) (c : Controller)
    → ((count w st bps c).cap ≡ c.cap) × ((count w st bps c).start_cap ≡ c.start_cap)
unfolding count
count-kept w unknown bps c = (refl, refl)
count-kept w bad bps c = (ground arith, ground arith)
count-kept w good bps c = (refl, refl)
count-kept w hold bps c = (refl, refl)

send-kept :
    (now : ℕ) (old : Option ℕ) (c : Controller)
    → ((send now old c).0.cap ≡ c.cap) × ((send now old c).0.start_cap ≡ c.start_cap)
unfolding send
send-kept now old c = (ground arith, ground arith)

resumed-IsAllowed : (now : ℕ) (c : Controller) → IsAllowed c → IsAllowed (resumed now c)
unfolding resumed
resumed-IsAllowed now c v = elim (Bool-cases (starts_capped c)) [
  | inl e ↦ record { cap_range = rw e v.start_range; start_range = v.start_range }
  | inr e ↦ record { cap_range = rw e v.cap_range; start_range = v.start_range }
]

lower_to-InRange :
    (cap : ℕ) (l : Option ℕ) → InRange (some cap) → InRange l → InRange (lower_to cap l)
lower_to-InRange cap none v w = v
lower_to-InRange cap (some l) v w = elim (Bool-cases (ltb l cap)) [
  | inl e ↦ rw e w
  | inr e ↦ rw e v
]

decreased-InRange : (arriving : ℕ) (cap : Option ℕ) → InRange cap → InRange (decreased arriving cap)
unfolding decreased
decreased-InRange arriving none v = sanitize_cap-InRange (arriving * 600)
decreased-InRange arriving (some cap) v =
    lower_to-InRange cap (sanitize_cap (amount (min cap arriving * 600))) v
      (sanitize_cap-InRange (min cap arriving * 600))

-- Where a camera may rise to.
ceiling-InRange : (c : Controller) → InRange (ceiling c)
unfolding ceiling
ceiling-InRange c = elim (Bool-cases c.camera) [
  | inr e ↦ rw e tt
  | inl e ↦ elim (Bool-cases (leb c.max_lines 540)) [
    | inl a ↦ rw (e, a) (omega arith)
    | inr a ↦ elim (Bool-cases (leb c.max_lines 800)) [
      | inl b ↦ rw (e, a, b) (omega arith)
      | inr b ↦ rw (e, a, b) (omega arith)
    ]
  ]
]

raise_to-InRange :
    (cap : ℕ) (top raised : Option ℕ)
    → InRange (some cap)
    → InRange top
    → InRange raised
    → InRange (raise_to cap top raised)
raise_to-InRange cap (some top) none v w x = elim (Bool-cases (ltb cap top)) [
  | inl e ↦ rw e w
  | inr e ↦ rw e v
]
raise_to-InRange cap (some top) (some r) v w x = elim (Bool-cases (ltb cap top)) [
  | inl e ↦ rw e (omega arith)
  | inr e ↦ rw e v
]
raise_to-InRange cap none none v w x = tt
raise_to-InRange cap none (some r) v w x = elim (Bool-cases (leb 3000000 r)) [
  | inl e ↦ rw e tt
  | inr e ↦ rw e x
]

increased-InRange :
    (cap arriving : ℕ) (top : Option ℕ)
    → InRange (some cap)
    → InRange top
    → InRange (increased cap arriving top)
unfolding increased
increased-InRange cap arriving top v w =
    raise_to-InRange cap top
      (sanitize_cap (amount (if is_unused cap arriving then cap * 2000 else cap * 1300))) v w
      (sanitize_cap-InRange (if is_unused cap arriving then cap * 2000 else cap * 1300))

-- What `adjust` makes of the cap, and when.
abbrev pub Adjusted : ℕ → Controller → Option ℕ → Type 0
Adjusted now c d =
    (d ≡ c.cap)
    ⊎ (d ≡ decreased (greatest c.rates) c.cap) × (may_fall now c ≡ true)
    ⊎ ((cap : ℕ) × (c.cap ≡ some cap)
        × (d ≡ increased cap (greatest c.rates) (ceiling c))
        × (may_rise now c ≡ true))

pub adjust-cases : (now : ℕ) (c : Controller) → Adjusted now c (adjust now c).cap
unfolding adjust
adjust-cases now c = elim (Bool-cases (may_fall now c)) [
  | inl e ↦ inr (inl (ground arith, e))
  | inr e ↦ elim (Option-cases c.cap) [
    | inl q ↦ inl (ground arith)
    | inr (cap', q) ↦ elim (Bool-cases (may_rise now c)) [
      | inl r ↦ inr (inr (cap', q, ground arith, r))
      | inr r ↦ inl (ground arith)
    ]
  ]
]

adjust-start_cap : (now : ℕ) (c : Controller) → (adjust now c).start_cap ≡ c.start_cap
unfolding adjust
adjust-start_cap now c = ground arith

adjust-IsAllowed : (now : ℕ) (c : Controller) → IsAllowed c → IsAllowed (adjust now c)
adjust-IsAllowed now c v = record {
  cap_range = elim (adjust-cases now c) [
    | inl e ↦ rw e v.cap_range
    | inr (inl (e, f)) ↦ rw e (decreased-InRange (greatest c.rates) c.cap v.cap_range)
    | inr (inr (cap', q, e, f)) ↦
        let w : InRange (some cap') = rw q at v.cap_range in
        rw e (increased-InRange cap' (greatest c.rates) (ceiling c) w (ceiling-InRange c))
  ];
  start_range = rw (adjust-start_cap now c) v.start_range;
}

stopped-IsAllowed : (now : ℕ) (c : Controller) → IsAllowed c → IsAllowed (stopped now c)
unfolding stopped
stopped-IsAllowed now c v = record { cap_range = tt; start_range = v.start_range }

-- Every poll keeps the cap, and the one for a start, between 150 kbit/s and 100 Mbit/s, where there is
-- one.
pub update-IsAllowed :
    (now : ℕ) (video : Bool) (m : Measured) (c : Controller)
    → IsAllowed c
    → IsAllowed (update now video m c).0
unfolding update
update-IsAllowed now video m c v =
    let c0 = path_delay now c in
    let st = judge c0.path m in
    let c1 = observe st m now c0 in
    let v0 : IsAllowed c0 = kept c c0 (path_delay-kept now c).0 (path_delay-kept now c).1 v in
    let v1 : IsAllowed c1 =
      kept c0 c1 (observe-kept st m now c0).0 (observe-kept st m now c0).1 v0 in
    let c2 = resumed now c1 in
    let c3 = count (is_warming now c1) st m.video_bps c2 in
    let v3 : IsAllowed c3 =
      kept c2 c3 (count-kept (is_warming now c1) st m.video_bps c2).0
        (count-kept (is_warming now c1) st m.video_bps c2).1 (resumed-IsAllowed now c1 v1) in
    let c4 = adjust now c3 in
    let v5 : IsAllowed (send now c.cap c4).0 =
      kept c4 _ (send-kept now c.cap c4).0 (send-kept now c.cap c4).1
        (adjust-IsAllowed now c3 v3) in
    elim (Bool-cases video) [ inl e ↦ rw e v5 | inr e ↦ rw e (stopped-IsAllowed now c1 v1) ]
