-- ===== src/Transfer/Object.antt =====
-- static/protocol.js, `TransferredFile`: its fields and the methods that close it. What it sends and
-- the calls of `onevent` are lists with the latest first. `online` is whether the server connection
-- takes a message: where it does not, `userMessage` throws.
use sozvon.Base.{
  ℕ, String, Bool, true, false, not, ◌&&◌, ◌||◌, Option, none, List, [], ◌∷◌, if◌then◌else◌,
}

abbrev pub Bytes : Type 0
Bytes = List ℕ

-- `fresh` is the empty state.
pub data State : Type 0 where
  fresh inviting connecting connected done cancelled closed : State

abbrev pub is_closed : State → Bool
is_closed closed = true
is_closed _ = false

-- The state is `done` or `cancelled`.
abbrev pub is_settled : State → Bool
is_settled done = true
is_settled cancelled = true
is_settled _ = false

abbrev pub is_fresh : State → Bool
is_fresh fresh = true
is_fresh _ = false

-- The `onclose` and `onerror` of the channel: cancel the transfer, or end the wait for the last
-- handshake.
pub data OnClose : Type 0 where
  cancels settles : OnClose

-- `listening` is whether `onmessage` is set.
pub record Channel : Type 0 where
  pub on_close : OnClose
  pub listening : Bool

pub data Sent : Type 0 where
  invites offers answers cancels_it says_done : Sent
  candidate : String → Sent
  data_chunk : Bytes → Sent

pub data Happened : Type 0 where
  became : State → Happened
  finished : Bytes → Happened

-- `pc` is whether there is a peer connection, `stable` whether its signalling state is `stable`, and
-- `added` the candidates that it was given.
pub record Transfer : Type 0 where
  pub userid : String
  pub id : String
  pub up : Bool
  pub size : ℕ
  pub version : Option String
  pub state : State
  pub pc : Bool
  pub stable : Bool
  pub dc : Option Channel
  pub candidates : List String
  pub added : List String
  pub chunks : List Bytes
  pub datalen : ℕ
  pub sent : List Sent
  pub events : List Happened

abbrev pub make : String → String → Bool → ℕ → Transfer
make userid id up size = record {
  userid = userid;
  id = id;
  up = up;
  size = size;
  version = none;
  state = fresh;
  pc = false;
  stable = true;
  dc = none;
  candidates = [];
  added = [];
  chunks = [];
  datalen = 0;
  sent = [];
  events = [];
}

-- The method `event`.
unfoldable pub event : State → Transfer → Transfer
event st f = record f { state = st; events = became st ∷ f.events }

abbrev pub say : Sent → Transfer → Transfer
say m f = record f { sent = m ∷ f.sent }

-- The dictionary forgets the transfer too: see Transfer/Dictionary.antt.
unfoldable pub close : Transfer → Transfer
unfolding event
close f =
    if is_closed f.state
    then f
    else event closed (record f { dc = none; pc = false; chunks = []; datalen = 0 })

-- The other side is told.
abbrev pub is_open_state : State → Bool
is_open_state st = not (is_fresh st) && not (is_settled st)

-- Offline a message that is to be sent throws, and nothing else is done.
unfoldable pub cancel : Bool → Transfer → Transfer
unfolding event close
cancel online f =
    if is_closed f.state || (is_open_state f.state && not online)
    then f
    else if is_settled f.state
    then close f
    else if is_open_state f.state
    then close (event cancelled (say cancels_it f))
    else close (event cancelled f)

unfoldable pub fail : Transfer → Transfer
unfolding event close
fail f = if is_settled f.state || is_closed f.state then f else close (event cancelled f)
