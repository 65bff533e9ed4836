-- ===== src/Transfer/Data.antt =====
-- static/protocol.js, `TransferredFile`: the data on its way, at both ends, and the negotiation.
use sozvon.Base.{
  ◌+◌, Bool, true, false, not, ◌&&◌, ◌||◌, Option, none, some, [], ◌∷◌, ◌++◌, if◌then◌else◌, length,
  ltb, ◌==◌,
}
use sozvon.Transfer.Object.{
  Bytes, connecting, connected, done, Channel, cancels, settles, offers, answers, says_done,
  data_chunk, finished, Transfer, event, say, close, cancel,
}
use sozvon.Transfer.Chunks.{concat}

-- none where it throws.
unfoldable pub buffer_data : Bytes → Transfer → Option Transfer
buffer_data bytes f =
    if f.up
    then none
    else some (record f { datalen = f.datalen + length bytes; chunks = f.chunks ++ bytes ∷ [] })

unfoldable pub get_buffered_data : Transfer → Option (Bytes × Transfer)
get_buffered_data f =
    if f.up || not (length (concat f.chunks) == f.datalen)
    then none
    else some (concat f.chunks, record f { chunks = []; datalen = 0 })

-- The end of `receiveData`, up to the wait: the application gets the file.
unfoldable pub finish : Bytes → Transfer → Transfer
finish blob f = record f {
  state = done;
  events = finished blob ∷ f.events;
  sent = says_done ∷ f.sent;
  dc = some (record { on_close = settles; listening = false });
}

-- A promise that is rejected cancels the transfer: so does what throws on the way.
unfoldable pub complete : Bool → Transfer → Transfer
unfolding get_buffered_data finish cancel
complete online f =
    if not (f.datalen == f.size) then cancel online f else elim (get_buffered_data f) [
      | none ↦ cancel online f
      | some (blob, f') ↦ if length blob == f.size then finish blob f' else cancel online f'
    ]

abbrev pub deafen : Transfer → Transfer
deafen f = record f {
  dc = elim f.dc [ none ↦ none | some c ↦ some (record c { listening = false }) ];
}

unfoldable pub receive_data : Bool → Bytes → Transfer → Transfer
unfolding buffer_data complete event cancel
receive_data online bytes f = elim (buffer_data bytes f) [
  | none ↦ cancel online f
  | some f' ↦
      if ltb f'.datalen f'.size
      then event connected f'
      else elim f'.dc [ none ↦ cancel online f' | some c ↦ complete online (deafen f') ]
]

abbrev pub listens : Option Channel → Bool
listens none = false
listens (some c) = c.listening

-- A message on the channel of the one who receives.
unfoldable pub on_data : Bool → Bytes → Transfer → Transfer
unfolding receive_data
on_data online bytes f = if listens f.dc then receive_data online bytes f else f

-- A message on the channel of the one who sends; `is_done` is whether it is the text `done`.
unfoldable pub on_reply : Bool → Bool → Transfer → Transfer
unfolding event close cancel
on_reply online is_done f =
    if not (listens f.dc)
    then f
    else if is_done && f.datalen == f.size
    then close (event done f)
    else cancel online f

-- The channel closes or fails.
unfoldable pub on_channel_close : Bool → Transfer → Transfer
unfolding close cancel
on_channel_close online f = elim f.dc [
  | none ↦ f
  | some c ↦ elim c.on_close [ cancels ↦ cancel online f | settles ↦ close f ]
]

-- The last handshake was waited for in vain.
unfoldable pub on_settled : Transfer → Transfer
unfolding close
on_settled f = elim f.dc [ none ↦ f | some c ↦ elim c.on_close [ cancels ↦ f | settles ↦ close f ] ]

-- The inner function of `send`, once the channel can take more.
unfoldable pub write : Bool → Bytes → Transfer → Transfer
unfolding event cancel
write online bytes f = elim f.dc [
  | none ↦ cancel online f
  | some c ↦
      event connected (say (data_chunk bytes) (record f { datalen = f.datalen + length bytes }))
]

abbrev pub fresh_channel : Channel
fresh_channel = record { on_close = cancels; listening = true }

-- `receive` up to the wait for the offer; unchanged where it throws.
unfoldable pub receive : Transfer → Transfer
unfolding event
receive f =
    if f.up || f.pc then f else record (event connecting (record f { pc = true; stable = true })) {
      candidates = [];
      dc = some fresh_channel;
      chunks = [];
      datalen = 0;
    }

-- The rest of `receive`, with the offer; the browser refuses it once the connection is closed.
unfoldable pub offer_ready : Bool → Transfer → Transfer
offer_ready online f = if f.pc && online then say offers (record f { stable = false }) else f

-- `answer` up to its first wait; what throws cancels.
unfoldable pub answer : Bool → Transfer → Transfer
unfolding event cancel
answer online f =
    if not f.up || f.pc
    then cancel online f
    else record (event connecting (record f { pc = true; stable = true })) { candidates = [] }

-- The rest of `answer`.
unfoldable pub answer_ready : Bool → Transfer → Transfer
unfolding event cancel
answer_ready online f =
    if not (f.pc && online) then cancel online f else event connected (say answers f)

-- `ondatachannel`
unfoldable pub on_data_channel : Bool → Transfer → Transfer
unfolding cancel
on_data_channel online f = elim f.dc [
  | none ↦ if f.pc then record f { dc = some fresh_channel } else f
  | some c ↦ cancel online f
]

-- `onsignalingstatechange`, to stable: the candidates that waited are given on.
unfoldable pub on_stable : Transfer → Transfer
on_stable f = record f { stable = true; added = f.added ++ f.candidates; candidates = [] }

-- `receiveFile`; without a connection it throws.
unfoldable pub receive_file : Bool → Transfer → Transfer
unfolding event cancel on_stable
receive_file online f = if f.up || not f.pc then cancel online f else event connected (on_stable f)
