-- ===== src/TurnFallback/Tests.antt =====
-- Giving up UDP at concrete inputs.
use sozvon.Base.{
  units, ℕ, ◌≤◌, ◌<◌, ◌≡◌, refl, true, false, Option, none, some, List, [], ◌∷◌, arith, lookup,
  insert, erase,
}
use sozvon.TurnFallback.{
  same, strip, is_some, letters, or_else, letters_of, transport, is_udp, is_udp_relay, several,
  single, urls_of, all, Conf, servers_of, has_udp_relay, offers_udp, not_udp, keep, strip_servers,
  others_of, without_udp, is_relay_url, can_drop_udp,
}
use sozvon.TurnFallback.WithoutUdp.{all_urls}
use sozvon.TurnFallback.Watcher.{
  Stat, scan, scan_all, or_null, path_of, local_path, selected_path, Poll, connected, by_loss,
  on_udp, note, judge, stream_of, update, forget,
}
use sozvon.TurnFallback.Watcher.Memory.{IsMemory, stream_of-IsMemory}
use sozvon.TurnFallback.Watcher.History.{
  Event, polled, forgotten, run, step, polls, last_path, lossy_streak, update-IsBorneOut,
  IsBorneOut,
}
use sozvon.TurnFallback.Memory.{
  object, Storage, is_recent, recent, load, load_item, remembered, or_empty, place, sort, written,
  remember,
}
use sozvon.TurnFallback.Memory.Kept.{remembered-remember}

machine : Unit {0}
unfolding same strip is_some letters or_else letters_of transport is_udp is_udp_relay urls_of
    servers_of has_udp_relay offers_udp not_udp keep strip_servers others_of without_udp
    is_relay_url can_drop_udp scan scan_all or_null path_of local_path selected_path on_udp note
    judge stream_of update forget run step polls is_recent recent load load_item remembered or_empty
    place sort written remember lookup insert erase
machine = tt

udp_default : is_udp_relay (units "TURN:relay.example:3478") ≡ true
unfolding machine
udp_default = refl

tcp : is_udp_relay (units "turn:relay.example:3478?transport=tcp") ≡ false
unfolding machine
tcp = refl

abbrev conf : Option Conf
conf = some (record {
  servers = some (
      record {
        urls = several (units "turn:r:1?transport=udp" ∷ units "turns:r:2?transport=tcp" ∷ []);
        credentials = "secret";
      }
      ∷ record { urls = single (units "turn:r:1"); credentials = "" }
      ∷ []);
  policy = all;
  others = "";
})

left_over : all_urls (servers_of (some (without_udp conf))) ≡ units "turns:r:2?transport=tcp" ∷ []
unfolding machine
left_over = refl

-- Chrome's peer-reflexive candidate that was learnt through the relay.
abbrev reflexive : List Stat
reflexive =
    record {
      id = "t";
      is_transport = true;
      is_pair = false;
      selected_pair_id = "p";
      selected = false;
      local_id = "";
      candidate_type = [];
      relay_protocol = [];
      protocol = [];
    }
    ∷ record {
      id = "p";
      is_transport = false;
      is_pair = true;
      selected_pair_id = "";
      selected = false;
      local_id = "l";
      candidate_type = [];
      relay_protocol = [];
      protocol = [];
    }
    ∷ record {
      id = "l";
      is_transport = false;
      is_pair = false;
      selected_pair_id = "";
      selected = false;
      local_id = "";
      candidate_type = units "prflx";
      relay_protocol = units "TCP";
      protocol = units "udp";
    }
    ∷ []

reflexive_path :
    selected_path reflexive ≡ some (record { type = units "relay"; relay = some (units "tcp") })
unfolding machine
reflexive_path = refl

abbrev lossy : Poll
lossy = record {
  ice = connected;
  path = some (record { type = units "host"; relay = some (units "udp") });
  loss = some 200000;
}

abbrev four : List Event
four =
    polled "up" lossy 8000
    ∷ forgotten "down"
    ∷ polled "up" lossy 6000
    ∷ polled "down" lossy 5000
    ∷ polled "up" lossy 4000
    ∷ polled "up" lossy 2000
    ∷ []

stream_of-IsMemory_example : IsMemory (polls "up" four) (stream_of (lookup "up" (run four)))
stream_of-IsMemory_example = stream_of-IsMemory "up" four

gives_up : (update "up" lossy 10000 (run four)).1 ≡ some by_loss
unfolding machine
gives_up = refl

keeps_on : (update "down" lossy 10000 (run four)).1 ≡ none
unfolding machine
keeps_on = refl

update-IsBorneOut_example :
    (on_udp (last_path ((lossy, 10000) ∷ polls "up" four)) ≡ true)
    × IsBorneOut 10000 ((lossy, 10000) ∷ polls "up" four) by_loss
update-IsBorneOut_example = update-IsBorneOut "up" lossy 10000 four by_loss gives_up

udp_path : on_udp (last_path ((lossy, 10000) ∷ polls "up" four)) ≡ true
unfolding machine
udp_path = refl

five : 5 ≤ lossy_streak ((lossy, 10000) ∷ polls "up" four)
unfolding machine
five = omega arith

abbrev storage : Storage
storage = record { item = object (("home", some 500) ∷ ("junk", none) ∷ []); writable = true }

home : (t : ℕ) → some 500 ≡ some t → t < 1000
home t e = let h : 500 ≡ t = cc in omega (arith, h)

remembered-remember_example : remembered (remember storage 1000 "work") 21600999 "work" ≡ true
remembered-remember_example =
    remembered-remember storage 1000 21600999 "work" refl ((λ t e. home t e), ((λ t e. cc), tt))
      (omega arith) (omega arith)

at_home : remembered storage 600 "home" ≡ true
unfolding machine
at_home = refl
