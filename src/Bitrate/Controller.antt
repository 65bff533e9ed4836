-- ===== src/Bitrate/Controller.antt =====
-- static/bitrate-control.js, `Controller`: what cap the receiver of a stream asks its sender for. Times
-- are milliseconds; delays and freezes microseconds, shares of samples millionths, rates whole bits
-- per second. What `assess` reads off two snapshots is a `Measured`.
pub mod Bounds
pub mod Pace
pub mod Tests
use sozvon.Base.{
  ℕ, ◌+◌, ◌*◌, max, min, Bool, true, false, not, ◌&&◌, ◌||◌, Option, none, some, List, [], ◌∷◌,
  ◌++◌, ltb, leb, ◌==◌, if◌then◌else◌, length,
}
use sozvon.Bitrate.{min_cap, max_cap, refresh, amount, sanitize_cap}

pub record Delay : Type 0 where
  pub audio : ℕ
  pub video : ℕ

pub data State : Type 0 where
  unknown bad good hold : State

-- `lasted` is whether there is a snapshot before and time has passed.
pub record Measured : Type 0 where
  pub lasted : Bool
  pub audio_played : Bool
  pub video_played : Bool
  pub delay : Delay
  pub concealed : ℕ
  pub freeze : ℕ
  pub video_bps : ℕ
  pub width : ℕ
  pub height : ℕ

abbrev pub congested : Option Delay → Delay
congested none = record { audio = 250000; video = 400000 }
congested (some p) = record {
  audio = max 250000 (p.audio + 150000);
  video = max 400000 (p.video + 200000);
}

abbrev pub healthy : Option Delay → Delay
healthy none = record { audio = 120000; video = 200000 }
healthy (some p) = record {
  audio = max 120000 (p.audio + 50000);
  video = max 200000 (p.video + 80000);
}

-- The end of `assess`.
unfoldable pub judge : Option Delay → Measured → State
judge path m =
    if not m.lasted || not (m.audio_played || m.video_played)
    then unknown
    else if ltb (congested path).audio m.delay.audio
        || ltb (congested path).video m.delay.video
        || ltb 50000 m.concealed
        || ltb 300000 m.freeze
    then bad
    else if leb m.delay.audio (healthy path).audio
        && leb m.delay.video (healthy path).video
        && leb m.concealed 10000
        && m.freeze == 0
    then good
    else hold

pub record Evidence : Type 0 where
  pub time : ℕ
  pub cap : ℕ
  pub delay : Delay

-- A time that is none is `-Infinity`.
pub record Controller : Type 0 where
  pub start_cap : Option ℕ
  pub camera : Bool
  pub max_lines : ℕ
  pub started : Bool
  pub cap : Option ℕ
  pub bad_count : ℕ
  pub good_count : ℕ
  pub changed_at : Option ℕ
  pub sent_at : Option ℕ
  pub started_at : Option ℕ
  pub rates : List ℕ
  pub seen : List Evidence
  pub path : Option Delay
  pub path_until : Option ℕ
  pub recent : List Delay

abbrev pub new : Option ℕ → Bool → Controller
new start_cap camera = record {
  start_cap = elim start_cap [ none ↦ none | some c ↦ sanitize_cap (amount (c * 1000)) ];
  camera = camera;
  max_lines = 0;
  started = false;
  cap = none;
  bad_count = 0;
  good_count = 0;
  changed_at = none;
  sent_at = none;
  started_at = none;
  rates = [];
  seen = [];
  path = none;
  path_until = none;
  recent = [];
}

-- `now - since >= gap`
abbrev pub passed : ℕ → Option ℕ → ℕ → Bool
passed now none gap = true
passed now (some t) gap = leb (t + gap) now

abbrev pub later : Option ℕ → ℕ → Option ℕ
later none t = some t
later (some u) t = some (max u t)

unfoldable pub ceiling : Controller → Option ℕ
ceiling c =
    if not c.camera
    then none
    else if leb c.max_lines 540
    then some 2500000
    else if leb c.max_lines 800
    then some 4000000
    else some 6000000

unfoldable pub forget_old : ℕ → List Evidence → List Evidence
forget_old now [] = []
forget_old now (e ∷ es) =
    let rest = forget_old now es in if ltb (e.time + 300000) now then rest else e ∷ es

abbrev pub lower : Option Delay → Delay → Delay
lower none d = d
lower (some p) d = record { audio = min p.audio d.audio; video = min p.video d.video }

-- Evidence counts at the floor, and well below the current cap.
abbrev pub proves : Option ℕ → Evidence → Bool
proves none e = true
proves (some cap) e = not (ltb min_cap e.cap && ltb (cap * 7) (e.cap * 10))

unfoldable pub least_delay : Option ℕ → List Evidence → Option Delay → Option Delay
least_delay cap [] path = path
least_delay cap (e ∷ es) path =
    least_delay cap es (if proves cap e then some (lower path e.delay) else path)

-- `pathEvidence` and `pathDelay`: what they return is `path`.
unfoldable pub path_delay : ℕ → Controller → Controller
unfolding forget_old least_delay
path_delay now c =
    let seen = forget_old now c.seen in
    elim (least_delay c.cap seen none) [
      | some p ↦ record c {
        seen = seen;
        path = some p;
        path_until = later c.path_until (now + 300000);
      }
      | none ↦ record c { seen = seen; path = if passed now c.path_until 0 then none else c.path }
    ]

-- Appends and keeps the last three.
abbrev pub push_three {ℓ} : {A : Type ℓ} → List A → A → List A
push_three [] x = x ∷ []
push_three (a ∷ []) x = a ∷ x ∷ []
push_three (a ∷ b ∷ []) x = a ∷ b ∷ x ∷ []
push_three (a ∷ b ∷ c ∷ more) x = (b ∷ c ∷ more) ++ x ∷ []

abbrev pub worst : List Delay → Delay
worst [] = record { audio = 0; video = 0 }
worst (d ∷ ds) = record {
  audio = max d.audio (worst ds).audio;
  video = max d.video (worst ds).video;
}

abbrev pub is_bad : State → Bool
is_bad bad = true
is_bad _ = false

abbrev pub is_known : State → Bool
is_known unknown = false
is_known _ = true

unfoldable pub confirm_path : State → Delay → ℕ → Controller → Controller
confirm_path st d now c =
    let recent = push_three c.recent d in
    elim c.path [
      | none ↦ record c { recent = recent }
      | some p ↦ record c {
        recent = recent;
        path_until = if is_bad st then c.path_until else later c.path_until (now + 300000);
        path = if ltb (length recent) 3 then some p else some (lower (some p) (worst recent));
      }
    ]

abbrev pub warmup : ℕ
warmup = 10000

abbrev pub is_warming : ℕ → Controller → Bool
is_warming now c = elim c.started_at [ none ↦ true | some t ↦ ltb now (t + warmup) ]

abbrev pub lines_of : Measured → ℕ
lines_of m = if ltb 0 m.width then min m.width m.height else m.height

-- `update`, up to the evidence for the path's delay.
unfoldable pub observe : State → Measured → ℕ → Controller → Controller
unfolding confirm_path
observe st m now c =
    let c' : Controller = record c {
      max_lines = max c.max_lines (lines_of m);
      started_at = elim c.started_at [
        | none ↦ if is_known st then some now else none
        | some t ↦ some t
      ];
    } in
    if is_warming now c' || not (is_known st)
    then c'
    else confirm_path st m.delay now (record c' {
      seen = elim c'.cap [
        | none ↦ c'.seen
        | some cap ↦
            if passed now c'.changed_at 4000
            then c'.seen ++ record { time = now; cap = cap; delay = m.delay } ∷ []
            else c'.seen
      ];
    })

abbrev pub same_cap : Option ℕ → Option ℕ → Bool
same_cap none none = true
same_cap (some a) (some b) = a == b
same_cap _ _ = false

-- `update`, where no video comes in.
unfoldable pub stopped : ℕ → Controller → Controller
stopped now c =
    let was = not (same_cap c.cap none) in
    record c {
      started = false;
      rates = [];
      bad_count = 0;
      good_count = 0;
      cap = none;
      changed_at = if was then some now else c.changed_at;
      sent_at = if was then some now else c.sent_at;
    }

abbrev pub starts_capped : Controller → Bool
starts_capped c = elim c.start_cap [
  | none ↦ false
  | some s ↦ elim c.cap [ none ↦ not c.started | some cap ↦ false ]
]

-- ... where it resumes.
unfoldable pub resumed : ℕ → Controller → Controller
resumed now c = record c {
  started = true;
  cap = if starts_capped c then c.start_cap else c.cap;
  changed_at = if starts_capped c then some now else c.changed_at;
}

unfoldable pub count : Bool → State → ℕ → Controller → Controller
count warming unknown bps c = c
count warming bad bps c =
    if warming
    then record c { bad_count = 0; good_count = 0; rates = push_three c.rates bps }
    else record c { bad_count = c.bad_count + 1; good_count = 0; rates = push_three c.rates bps }
count warming good bps c = record c {
  good_count = c.good_count + 1;
  bad_count = 0;
  rates = push_three c.rates bps;
}
count warming hold bps c = record c {
  bad_count = 0;
  good_count = 0;
  rates = push_three c.rates bps;
}

abbrev pub greatest : List ℕ → ℕ
greatest [] = 0
greatest (x ∷ xs) = max x (greatest xs)

-- A cap that is not lower is not taken.
abbrev pub lower_to : ℕ → Option ℕ → Option ℕ
lower_to cap none = some cap
lower_to cap (some l) = if ltb l cap then some l else some cap

-- The decrease.
unfoldable pub decreased : ℕ → Option ℕ → Option ℕ
decreased arriving none = sanitize_cap (amount (arriving * 600))
decreased arriving (some cap) = lower_to cap (sanitize_cap (amount (min cap arriving * 600)))

-- A camera stays at its ceiling once there; another stream is lifted.
abbrev pub raise_to : ℕ → Option ℕ → Option ℕ → Option ℕ
raise_to cap (some top) none = if ltb cap top then some top else some cap
raise_to cap (some top) (some r) = if ltb cap top then some (min r top) else some cap
raise_to cap none none = none
raise_to cap none (some r) = if leb 3000000 r then none else some r

abbrev pub is_unused : ℕ → ℕ → Bool
is_unused cap arriving = ltb 0 arriving && ltb (arriving * 10) (cap * 7)

-- The increase of the cap `cap`.
unfoldable pub increased : ℕ → ℕ → Option ℕ → Option ℕ
increased cap arriving top =
    raise_to cap top
      (sanitize_cap (amount (if is_unused cap arriving then cap * 2000 else cap * 1300)))

-- Takes a cap, with the time if it is another one.
abbrev pub take_cap : ℕ → Option ℕ → Controller → Controller
take_cap now cap c = record c {
  cap = cap;
  changed_at = if same_cap cap c.cap then c.changed_at else some now;
}

abbrev pub may_fall : ℕ → Controller → Bool
may_fall now c = leb 2 c.bad_count && ltb 0 (greatest c.rates) && passed now c.changed_at 6000

abbrev pub may_rise : ℕ → Controller → Bool
may_rise now c = leb 8 c.good_count && passed now c.changed_at 15000

unfoldable pub adjust : ℕ → Controller → Controller
adjust now c =
    let arriving = greatest c.rates in
    if may_fall now c
    then record (take_cap now (decreased arriving c.cap) c) { bad_count = 0 }
    else elim c.cap [
      | none ↦ c
      | some cap ↦
          if may_rise now c
          then record c {
            cap = increased cap arriving (ceiling c);
            changed_at = elim (ceiling c) [
              | some top ↦ if ltb cap top then some now else c.changed_at
              | none ↦ some now
            ];
            good_count = 0;
          }
          else c
    ]

-- The end of `update`: whether the cap is sent.
unfoldable pub send : ℕ → Option ℕ → Controller → Controller × Bool
send now old c =
    let due = not (same_cap c.cap none) && passed now c.sent_at refresh in
    if not (same_cap c.cap old) || due then (record c { sent_at = some now }, true) else (c, false)

-- `update`, at `now`; `video` is whether the snapshot has any. The new state, and whether the cap is
-- to be sent.
unfoldable pub update : ℕ → Bool → Measured → Controller → Controller × Bool
update now video m c =
    let c0 = path_delay now c in
    let st = judge c0.path m in
    let c1 = observe st m now c0 in
    if video
    then send now c.cap (adjust now (count (is_warming now c1) st m.video_bps (resumed now c1)))
    else (stopped now c1, not (same_cap none c.cap))
