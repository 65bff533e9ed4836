-- ===== src/Streams.antt =====
-- static/protocol.js, `Stream` and the messages of `ServerConnection` about streams: what becomes of
-- each stream's candidates, and of messages for streams that are gone. Each promise is cut where it
-- is awaited; `online` is whether `send` takes a message.
pub mod Candidates
pub mod Gone
pub mod Tests
use sozvon.Base.{
  String, Bool, true, false, not, ◌&&◌, ◌||◌, Option, none, some, List, [], ◌∷◌, ◌++◌,
  if◌then◌else◌, any, str_eq, lookup, insert, erase,
}

pub data Sent : Type 0 where
  offers answers renegotiates aborts closes : String → Sent
  candidate : String → String → Sent

-- `described` is whether the peer connection has a remote description; `added` are the candidates
-- it was given, `told` those that were sent to the server.
pub record Stream : Type 0 where
  pub id : String
  pub local_id : String
  pub up : Bool
  pub source : Option String
  pub label : Option String
  pub replace : Option String
  pub local_description_sent : Bool
  pub described : Bool
  pub local_ice : List String
  pub remote_ice : List String
  pub added : List String
  pub told : List String

abbrev pub make : String → String → Bool → Stream
make id local_id up = record {
  id = id;
  local_id = local_id;
  up = up;
  source = none;
  label = none;
  replace = none;
  local_description_sent = false;
  described = false;
  local_ice = [];
  remote_ice = [];
  added = [];
  told = [];
}

-- `gotLocalIce`; offline it throws and the candidate is lost.
unfoldable pub got_local_ice : Bool → String → Stream → Stream
got_local_ice online c s =
    if s.local_description_sent
    then if online then record s { told = s.told ++ c ∷ [] } else s
    else record s { local_ice = s.local_ice ++ c ∷ [] }

-- `flushLocalIceCandidates`; offline each candidate is lost.
unfoldable pub flush_local : Bool → Stream → Stream
flush_local online s = record s {
  told = if online then s.told ++ s.local_ice else s.told;
  local_ice = [];
}

-- `gotRemoteIce`, for a stream that is there.
unfoldable pub got_remote_ice : String → Stream → Stream
got_remote_ice c s =
    if s.described
    then record s { added = s.added ++ c ∷ [] }
    else record s { remote_ice = s.remote_ice ++ c ∷ [] }

-- `flushRemoteIceCandidates`
unfoldable pub flush_remote : Stream → Stream
flush_remote s = record s { added = s.added ++ s.remote_ice; remote_ice = [] }

-- `setRemoteDescription` succeeded, in `gotOffer` or `gotAnswer`.
unfoldable pub described_now : Stream → Stream
unfolding flush_remote
described_now s = flush_remote (record s { described = true })

-- The end of `gotOffer`, once the local description is set; offline the message throws, and so does
-- that of `abort`.
unfoldable pub answered : Bool → Stream → Stream
unfolding flush_local
answered online s =
    if online then flush_local online (record s { local_description_sent = true }) else s

-- The end of `negotiate`, once the local description is set.
unfoldable pub negotiated : Bool → Stream → Stream
unfolding flush_local
negotiated online s =
    if s.up && online
    then flush_local online (record s { local_description_sent = true; replace = none })
    else s

pub record Table : Type 0 where
  pub up : List (String × Stream)
  pub down : List (String × Stream)
  pub closed_up : List String
  pub sent : List Sent

abbrev pub tell : Bool → Sent → Table → Table
tell online m t = if online then record t { sent = m ∷ t.sent } else t

-- `close` of an up stream that is in the table; `replacing` is its argument. What cannot be sent is
-- left.
unfoldable pub close_up : Bool → Bool → Stream → Table → Table
close_up online replacing s t =
    let t' = if not replacing && s.local_description_sent then tell online (closes s.id) t else t in
    record t' { up = erase s.id t'.up; closed_up = s.id ∷ t'.closed_up }

unfoldable pub close_down : Stream → Table → Table
close_down s t = record t { down = erase s.id t.down }

pub data Found : Type 0 where
  there : Stream → Found
  closed_meanwhile unknown : Found

-- `upStreamFor`; `unknown` is where it throws.
unfoldable pub up_stream_for : String → Table → Found
up_stream_for id t = elim (lookup id t.up) [
  | some s ↦ there s
  | none ↦ if any (str_eq id) t.closed_up then closed_meanwhile else unknown
]

-- The table, and whether an exception goes up.
unfoldable pub on_abort : Bool → String → Table → Table × Bool
unfolding up_stream_for close_up
on_abort online id t = elim (up_stream_for id t) [
  | there s ↦ (close_up online false s t, false)
  | closed_meanwhile ↦ (t, false)
  | unknown ↦ (t, true)
]

-- `gotRenegotiate`: the browser starts the negotiation.
unfoldable pub on_renegotiate : String → Table → Table × Bool
unfolding up_stream_for
on_renegotiate id t = elim (up_stream_for id t) [
  | there s ↦ (t, false)
  | closed_meanwhile ↦ (t, false)
  | unknown ↦ (t, true)
]

-- `gotAnswer`; `good` is whether the browser takes the description.
unfoldable pub on_answer : Bool → Bool → String → Table → Table × Bool
unfolding up_stream_for close_up described_now
on_answer online good id t = elim (up_stream_for id t) [
  | there s ↦
      if good
      then (record t { up = insert id (described_now s) t.up }, false)
      else (close_up online false s t, false)
  | closed_meanwhile ↦ (t, false)
  | unknown ↦ (t, true)
]

-- `gotClose`
unfoldable pub on_close : String → Table → Table
unfolding close_down
on_close id t = elim (lookup id t.down) [ none ↦ t | some s ↦ close_down s t ]

-- `gotRemoteIce`
unfoldable pub on_remote_ice : String → String → Table → Table
unfolding got_remote_ice
on_remote_ice id c t = elim (lookup id t.up) [
  | some s ↦ record t { up = insert id (got_remote_ice c s) t.up }
  | none ↦ elim (lookup id t.down) [
    | some s ↦ record t { down = insert id (got_remote_ice c s) t.down }
    | none ↦ t
  ]
]

-- `findByLocalId`, among the up streams.
abbrev pub find_by_local_id : String → List (String × Stream) → Option Stream
find_by_local_id local_id [] = none
find_by_local_id local_id (entry ∷ rest) =
    if str_eq entry.1.local_id local_id then some entry.1 else find_by_local_id local_id rest

-- The local id that is asked for; an empty one is none.
abbrev pub asked_for : Option String → Option String
asked_for none = none
asked_for (some l) = if str_eq l "" then none else some l

unfoldable pub create_up : Bool → String → Option String → String → Table → Table
unfolding close_up
create_up online id local_id new_local_id t = elim local_id [
  | none ↦ record t { up = insert id (make id new_local_id true) t.up }
  | some l ↦ elim (find_by_local_id l t.up) [
    | none ↦ record t { up = insert id (make id l true) t.up }
    | some old ↦
        let t' = close_up online true old t in
        record t' { up = insert id (record (make id l true) { replace = some old.id }) t'.up }
  ]
]

-- `newUpStream` with its new id; `new_local_id` is used where no local id is given. It throws, and
-- does nothing, where an up stream has the new id.
unfoldable pub new_up_stream : Bool → String → Option String → String → Table → Table
unfolding create_up
new_up_stream online id local_id new_local_id t = elim (lookup id t.up) [
  | some old ↦ t
  | none ↦ create_up online id (asked_for local_id) new_local_id t
]

-- The stream that an offer replaces is closed; what is left of it is its local id.
unfoldable pub replaced : Option String → Table → Table × Option String
unfolding close_down
replaced none t = (t, none)
replaced (some id) t = elim (lookup id t.down) [
  | none ↦ (t, none)
  | some old ↦ (close_down old t, some old.local_id)
]

abbrev pub or_new : String → Option String → String
or_new new_local_id none = new_local_id
or_new new_local_id (some l) = l

-- `gotOffer` up to its first wait. An empty `replace` is none.
unfoldable pub on_offer :
    Bool → String → Option String → String → Option String → String → Table → Table
unfolding replaced
on_offer online id label source replace new_local_id t = elim (lookup id t.up) [
  | some s ↦ tell online (aborts id) t
  | none ↦
      let (t', old) = replaced replace t in
      elim (lookup id t'.down) [
        | some s ↦ record t' { down = insert id (record s { source = some source }) t'.down }
        | none ↦ record t' {
          down =
              insert id
                (record (make id (or_new new_local_id old) false) {
                  label = label;
                  source = some source;
                })
                t'.down;
        }
      ]
]
