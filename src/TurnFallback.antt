-- ===== src/TurnFallback.antt =====
-- static/turn-fallback.js: giving up on UDP. Here: what a configuration offers, and the path that a
-- connection uses. A URL or a protocol is its UTF-16 units; case is folded on ASCII letters, as the
-- `i` flag and the protocol names have it. `Watcher` and `Memory` are the children.
pub mod WithoutUdp
pub mod Watcher
pub mod Memory
pub mod Tests
use sozvon.Base.{
  units, ℕ, ◌+◌, String, Bool, true, false, ◌&&◌, ◌||◌, not, Option, none, some, List, [], ◌∷◌, any,
  leb, ◌==◌, if◌then◌else◌, lookup, insert, str_eq,
}

abbrev pub Text : Type 0
Text = List ℕ

abbrev pub lower : ℕ → ℕ
lower c = if leb 65 c && leb c 90 then c + 32 else c

abbrev pub lower_text : Text → Text
lower_text [] = []
lower_text (c ∷ s) = lower c ∷ lower_text s

unfoldable pub same : Text → Text → Bool
same [] [] = true
same (c ∷ s) (d ∷ t) = (c == d) && same s t
same _ _ = false

-- A regular expression that is lower-case letters, against the start of a text: what follows it.
unfoldable pub strip : Text → Text → Option Text
strip [] t = some t
strip (p ∷ ps) [] = none
strip (p ∷ ps) (c ∷ t) = let rest = strip ps t in if lower c == p then rest else none

unfoldable pub is_some : Option Text → Bool
is_some none = false
is_some (some t) = true

-- `([a-z]+)` with the `i` flag, in lower case: empty if it does not match.
unfoldable pub letters : Text → Text
letters [] = []
letters (c ∷ s) =
    let rest = letters s in if leb 97 (lower c) && leb (lower c) 122 then lower c ∷ rest else []

unfoldable pub or_else : Text → Option Text → Option Text
or_else [] rest = rest
or_else (c ∷ s) rest = some (c ∷ s)

unfoldable pub letters_of : Option Text → Text
unfolding letters
letters_of none = []
letters_of (some t) = letters t

-- The first match of `/[?&]transport=([a-z]+)/i`: its group.
unfoldable pub transport : Text → Option Text
unfolding strip letters_of or_else
transport [] = none
transport (c ∷ s) =
    let rest = transport s in
    if (c == 63) || (c == 38)
    then or_else (letters_of (strip (units "transport=") s)) rest
    else rest

unfoldable pub is_udp : Option Text → Bool
unfolding same
is_udp none = true
is_udp (some t) = same t (units "udp")

unfoldable pub is_udp_relay : Text → Bool
unfolding strip is_some transport is_udp
is_udp_relay url = is_some (strip (units "turn:") url) && is_udp (transport url)

-- `server.urls`
pub data Urls : Type 0 where
  missing : Urls
  single : Text → Urls
  several : List Text → Urls

pub record Server : Type 0 where
  pub urls : Urls
  -- the other fields, which are copied
  pub credentials : String

unfoldable pub urls_of : Server → List Text
urls_of s = elim s.urls [
  | missing ↦ []
  | single [] ↦ []
  | single (c ∷ t) ↦ (c ∷ t) ∷ []
  | several l ↦ l
]

pub data Policy : Type 0 where
  relay all unset : Policy

pub record Conf : Type 0 where
  pub servers : Option (List Server)
  pub policy : Policy
  pub others : String

unfoldable pub servers_of : Option Conf → List Server
servers_of none = []
servers_of (some c) = elim c.servers [ none ↦ [] | some l ↦ l ]

unfoldable pub has_udp_relay : Option Conf → Bool
unfolding servers_of urls_of is_udp_relay
has_udp_relay conf = any (λ s. any is_udp_relay (urls_of s)) (servers_of conf)

unfoldable pub is_relay : Policy → Bool
is_relay relay = true
is_relay _ = false

unfoldable pub offers_udp : Option Conf → Bool
unfolding has_udp_relay is_relay
offers_udp none = has_udp_relay none
offers_udp (some c) = has_udp_relay (some c) || not (is_relay c.policy)

unfoldable pub not_udp : List Text → List Text
unfolding is_udp_relay
not_udp [] = []
not_udp (u ∷ us) = if is_udp_relay u then not_udp us else u ∷ not_udp us

-- A server with the URLs left to it, before the rest; dropped if there are none.
unfoldable pub keep : Server → List Text → List Server → List Server
keep s [] rest = rest
keep s (u ∷ us) rest = record s { urls = several (u ∷ us) } ∷ rest

unfoldable pub strip_servers : List Server → List Server
unfolding not_udp urls_of keep
strip_servers [] = []
strip_servers (s ∷ l) = keep s (not_udp (urls_of s)) (strip_servers l)

unfoldable pub others_of : Option Conf → String
others_of none = ""
others_of (some c) = c.others

unfoldable pub without_udp : Option Conf → Conf
unfolding strip_servers servers_of others_of
without_udp conf = record {
  servers = some (strip_servers (servers_of conf));
  policy = relay;
  others = others_of conf;
}

-- `/^turns?:/i`
unfoldable pub is_relay_url : Text → Bool
unfolding strip is_some
is_relay_url u = is_some (strip (units "turn:") u) || is_some (strip (units "turns:") u)

unfoldable pub can_drop_udp : Option Conf → Bool
unfolding without_udp is_relay_url
can_drop_udp conf = any (λ s. any is_relay_url (urls_of s)) (servers_of (some (without_udp conf)))
