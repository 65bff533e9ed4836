-- ===== src/CameraDiag/Tests.antt =====
-- The diagnosis of a camera at concrete inputs.
use sozvon.Base.{ℕ, ◌≡◌, refl, none, some, List, [], ◌∷◌, true}
use sozvon.Bitrate.{amount, not_number}
use sozvon.CameraDiag.{
  Stat, sender_stats, add_stats, add_stat, add, limited, count, includes, Seen, report,
}
use sozvon.CameraDiag.Counters.{total, sender_stats-total}

abbrev outbound : ℕ → Stat
outbound n = record {
  kind = some "video";
  type = "outbound-rtp";
  frames = not_number;
  frames_encoded = not_number;
  packets_sent = amount n;
  reason = some "cpu";
}

abbrev simulcast : List Stat
simulcast = outbound 3000 ∷ outbound 4000 ∷ []

sent_simulcast : (sender_stats simulcast).sent ≡ some 7
unfolding sender_stats add_stats add_stat add limited count includes
sent_simulcast = refl

encoded_simulcast : (sender_stats simulcast).encoded ≡ none
unfolding sender_stats add_stats add_stat add limited count includes
encoded_simulcast = refl

-- What was seen of a camera drawn through an unknown canvas.
abbrev seen : Seen
seen = record {
  platform = none;
  browser = "chrome";
  touch = true;
  canvas = "mirror";
  track = none;
  element = none;
  sender = some (sender_stats simulcast);
  preview = amount 0;
  after = 6000;
}

canvas_seen : (report seen).canvas ≡ "none"
unfolding report includes
canvas_seen = refl

after_seen : (report seen).after ≡ some 6
unfolding report count
after_seen = refl

sender_stats-total_example :
    ((sender_stats simulcast).source ≡ none)
    × ((sender_stats simulcast).encoded ≡ none)
    × ((sender_stats simulcast).sent ≡ some 7)
unfolding total count
sender_stats-total_example = sender_stats-total simulcast
