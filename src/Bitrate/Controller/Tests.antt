-- ===== src/Bitrate/Controller/Tests.antt =====
-- The receiver's controller at concrete inputs.
use sozvon.Base.{◌≡◌, refl, true, some}
use sozvon.Bitrate.{sanitize_cap}
use sozvon.Bitrate.Controller.{
  Measured, Controller, new, update, path_delay, forget_old, least_delay, confirm_path, observe,
  judge, stopped, resumed, count, ceiling, decreased, increased, adjust, send,
}
use sozvon.Bitrate.Controller.Bounds.{new-IsAllowed, update-IsAllowed, IsAllowed}
use sozvon.Bitrate.Controller.Pace.{IsPaced, update-pace}

machine : Unit {0}
unfolding update path_delay forget_old least_delay confirm_path observe judge stopped resumed count
    ceiling decreased increased adjust send sanitize_cap
machine = tt

-- A camera that starts at 1 Mbit/s.
abbrev camera : Controller
camera = new (some 1000000) true

-- A poll that finds the video late by half a second, at 800 kbit/s.
abbrev late : Measured
late = record {
  lasted = true;
  audio_played = true;
  video_played = true;
  delay = record { audio = 50000; video = 500000 };
  concealed = 0;
  freeze = 0;
  video_bps = 800000;
  width = 640;
  height = 480;
}

abbrev polled : Controller
polled = (update 10000 true late camera).0

-- After two late polls past the warm-up.
abbrev twice : Controller
twice = (update 22000 true late polled).0

starts : polled.cap ≡ some 1000000
unfolding machine
starts = refl

falls : (update 24000 true late twice).0.cap ≡ some 480000
unfolding machine
falls = refl

is_started : twice.started ≡ true
unfolding machine
is_started = refl

update-IsAllowed_example : IsAllowed polled
update-IsAllowed_example =
    update-IsAllowed 10000 true late camera (new-IsAllowed (some 1000000) true)

update-pace_example : IsPaced 24000 twice (update 24000 true late twice).0.cap
update-pace_example = update-pace 24000 late twice is_started
