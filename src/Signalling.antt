-- ===== src/Signalling.antt =====
-- static/signalling-resume.js: the client's half of the bookkeeping with which a session is carried
-- on over a new websocket, and its timings. A message is its text as UTF-16 units, so that `length`
-- is the `length` of the source.
pub mod Kept
pub mod Replay
pub mod Tests
use sozvon.Base.{
  ℕ, suc, ◌+◌, ◌-◌, String, Bool, true, false, ◌&&◌, ◌||◌, not, Option, none, some, List, [], ◌∷◌,
  ◌++◌, length, drop, ltb, leb, ◌==◌, if◌then◌else◌, str_eq,
}

abbrev pub ping_after : ℕ
ping_after = 8000

abbrev pub stall_after : ℕ
stall_after = 20000

abbrev pub attempt_timeout : ℕ
attempt_timeout = 8000

abbrev pub retry_delay : ℕ
retry_delay = 2000

abbrev pub give_up_after : ℕ
give_up_after = 110000

abbrev pub max_messages : ℕ
max_messages = 512

abbrev pub max_bytes : ℕ
max_bytes = 2097152

abbrev pub close_no_resume : ℕ
close_no_resume = 4001

unfoldable pub counted : String → Bool
counted type =
    not (str_eq type "handshake")
    && not (str_eq type "sozvon-session")
    && not (str_eq type "sozvon-resumed")
    && not (str_eq type "sozvon-network")

abbrev pub Message : Type 0
Message = List ℕ

pub record SentLog : Type 0 where
  pub msgs : List Message
  pub bytes : ℕ
  pub count : ℕ

abbrev pub new : SentLog
new = record { msgs = []; bytes = 0; count = 0 }

-- The test of the loop of `push`.
unfoldable pub too_much : List Message → ℕ → Bool
too_much msgs bytes = ltb max_messages (length msgs) || (ltb 1 (length msgs) && ltb max_bytes bytes)

-- The loop of `push`: the oldest messages are shifted out.
unfoldable pub trim : List Message → ℕ → ℕ → SentLog
trim [] bytes count = record { msgs = []; bytes = bytes; count = count }
trim (m ∷ ms) bytes count =
    let rest = trim ms (bytes - length m) count in
    if too_much (m ∷ ms) bytes then rest else record { msgs = m ∷ ms; bytes = bytes; count = count }

unfoldable pub push : SentLog → Message → SentLog
push log s = trim (log.msgs ++ s ∷ []) (log.bytes + length s) (log.count + 1)

-- The argument of `after` comes from the other side: a number or anything else.
pub data Argument : Type 0 where
  whole : ℕ → Argument
  -- the integer -(n + 1)
  below_zero : ℕ → Argument
  not_integer : Argument

-- `first` of the source: the number of the oldest message kept.
abbrev pub first : SentLog → ℕ
first log = log.count + 1 - length log.msgs

unfoldable pub after : SentLog → Argument → Option (List Message)
after log not_integer = none
after log (below_zero k) =
    if ltb 0 (first log + k) then none else some (drop (0 - k - first log) log.msgs)
after log (whole n) =
    if ltb (n + 1) (first log) || ltb log.count n
    then none
    else some (drop (n + 1 - first log) log.msgs)

pub data CloseAction : Type 0 where
  end resume : CloseAction

unfoldable pub on_close : ℕ → Bool → Bool → CloseAction
on_close code resumable leaving =
    if leaving || not resumable
    then end
    else if code == 1000 || code == close_no_resume
    then end
    else resume

pub data TickAction : Type 0 where
  fine ping reconnect : TickAction

unfoldable pub on_tick : ℕ → TickAction
on_tick silent =
    if ltb stall_after silent then reconnect else if leb ping_after silent then ping else fine
