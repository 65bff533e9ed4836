-- ===== src/CameraDiag.antt =====
-- static/camera-diag.js: what is reported of a camera that was published, to find where its picture
-- stops. A counter is a `Value`, in thousandths, which need not be a number.
pub mod Counters
pub mod Tests
use sozvon.Base.{
  ℕ, ◌+◌, min, Bool, true, false, ◌||◌, ◌&&◌, not, Option, none, some, List, [], ◌∷◌, if◌then◌else◌,
  String, str_eq,
}
use sozvon.Bitrate.{Value, amount, negative, not_finite, not_number, round}
use sozvon.MediaHelp.{Platform, Os, other, App}

abbrev pub canvases : List String
canvases = "none" ∷ "orientation" ∷ "filter" ∷ []

abbrev pub plays : List String
plays = "ok" ∷ "pending" ∷ "NotAllowedError" ∷ "AbortError" ∷ "NotSupportedError" ∷ "error" ∷ []

abbrev pub limits : List String
limits = "none" ∷ "cpu" ∷ "bandwidth" ∷ "other" ∷ []

unfoldable pub count : Value → Option ℕ
count (amount m) = some (round m)
count _ = none

unfoldable pub includes : String → List String → Bool
includes v [] = false
includes v (s ∷ words) = str_eq s v || includes v words

abbrev pub one_of : String → List String → String → String
one_of v allowed fallback = if includes v allowed then v else fallback

-- One of the statistics of a connection; `kind` is its kind, or else its media type.
pub record Stat : Type 0 where
  pub kind : Option String
  pub type : String
  pub frames : Value
  pub frames_encoded : Value
  pub packets_sent : Value
  pub reason : Option String

pub record Sender : Type 0 where
  pub source : Option ℕ
  pub encoded : Option ℕ
  pub sent : Option ℕ
  pub limit : Option String

abbrev pub is_text : Option String → String → Bool
is_text none s = false
is_text (some t) s = str_eq t s

-- `add`, for one of the sums.
unfoldable pub add : Option ℕ → Value → Option ℕ
unfolding count
add sum v = elim (count v) [
  | none ↦ sum
  | some n ↦ elim sum [ none ↦ some n | some m ↦ some (m + n) ]
]

-- The most telling reason so far.
unfoldable pub limited : Option String → Option String → Option String
limited limit none = limit
limited none (some reason) = some (one_of reason limits "other")
limited (some l) (some reason) =
    if str_eq l "none" then some (one_of reason limits "other") else some l

abbrev pub is_source : Stat → Bool
is_source s = is_text s.kind "video" && str_eq s.type "media-source"

abbrev pub is_outbound : Stat → Bool
is_outbound s =
    is_text s.kind "video" && not (str_eq s.type "media-source") && str_eq s.type "outbound-rtp"

-- A turn of the loop of `senderStats`.
unfoldable pub add_stat : Sender → Stat → Sender
add_stat r s =
    if is_source s
    then record r { source = add r.source s.frames }
    else if is_outbound s
    then record r {
      encoded = add r.encoded s.frames_encoded;
      sent = add r.sent s.packets_sent;
      limit = limited r.limit s.reason;
    }
    else r

unfoldable pub add_stats : Sender → List Stat → Sender
add_stats r [] = r
add_stats r (s ∷ stats) = add_stats (add_stat r s) stats

unfoldable pub sender_stats : List Stat → Sender
sender_stats = add_stats (record { source = none; encoded = none; sent = none; limit = none })

pub record Track : Type 0 where
  pub ready_state : Option String
  pub muted : Bool
  pub enabled : Option Bool
  pub width : Value
  pub height : Value
  pub frame_rate : Value
  pub delivered : Value

abbrev pub no_track : Track
no_track = record {
  ready_state = none;
  muted = false;
  enabled = none;
  width = not_number;
  height = not_number;
  frame_rate = not_number;
  delivered = not_number;
}

pub record Element : Type 0 where
  pub paused : Bool
  pub ready_state : Value
  pub video_width : Value
  pub video_height : Value
  pub play : String
  pub drawn : Value

-- The argument of `report`; `browser` is the family found in the user agent, `after` is in
-- milliseconds.
pub record Seen : Type 0 where
  pub platform : Option Platform
  pub browser : String
  pub touch : Bool
  pub canvas : String
  pub track : Option Track
  pub element : Option Element
  pub sender : Option Sender
  pub preview : Value
  pub after : ℕ

pub record OfElement : Type 0 where
  pub paused : Option Bool
  pub ready : Option ℕ
  pub element_width : Option ℕ
  pub element_height : Option ℕ
  pub play : Option String
  pub drawn : Option ℕ

pub record Report : Type 0 where
  pub after : Option ℕ
  pub os : Os
  pub app : Option App
  pub browser : String
  pub touch : Bool
  pub canvas : String
  pub track : String
  pub muted : Bool
  pub enabled : Bool
  pub width : Option ℕ
  pub height : Option ℕ
  pub fps : Option ℕ
  pub delivered : Option ℕ
  pub element : OfElement
  pub sender : Sender
  pub preview : Option ℕ

abbrev pub or_zero : Option ℕ → ℕ
or_zero none = 0
or_zero (some n) = n

-- What is reported of the hidden element, if a canvas is in use.
unfoldable pub of_element : String → Option Element → OfElement
unfolding count
of_element canvas none = record {
  paused = none;
  ready = none;
  element_width = none;
  element_height = none;
  play = none;
  drawn = none;
}
of_element canvas (some e) =
    if str_eq canvas "none"
    then record {
      paused = none;
      ready = none;
      element_width = none;
      element_height = none;
      play = none;
      drawn = none;
    }
    else record {
      paused = some e.paused;
      ready = some (min 4 (or_zero (count e.ready_state)));
      element_width = count e.video_width;
      element_height = count e.video_height;
      play = some (one_of e.play plays "error");
      drawn = count e.drawn;
    }

unfoldable pub report : Seen → Report
unfolding count of_element
report p =
    let t : Track = elim p.track [ none ↦ no_track | some t ↦ t ] in
    let canvas = one_of p.canvas canvases "none" in
    record {
      after = count (amount p.after);
      os = elim p.platform [ none ↦ other | some q ↦ q.os ];
      app = elim p.platform [ none ↦ none | some q ↦ q.app ];
      browser = p.browser;
      touch = p.touch;
      canvas = canvas;
      track = if is_text t.ready_state "ended" then "ended" else "live";
      muted = t.muted;
      enabled = elim t.enabled [ none ↦ true | some b ↦ b ];
      width = count t.width;
      height = count t.height;
      fps = count t.frame_rate;
      delivered = count t.delivered;
      element = of_element canvas p.element;
      sender = elim p.sender [
        | none ↦ record { source = none; encoded = none; sent = none; limit = none }
        | some s ↦ s
      ];
      preview = count p.preview;
    }
