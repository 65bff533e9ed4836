-- ===== src/Transfer/Delivery.antt =====
-- What is received is what was sent.
use sozvon.Base.{
  ℕ, ◌+◌, ◌≤◌, ◌<◌, ◌≡◌, refl, ap, ap₂, ◌∙◌, inl, inr, Bool, true, false, some, List, [], ◌∷◌, ◌++◌,
  if◌then◌else◌, arith, Bool-cases, length, ◌==◌, length-append, All,
}
use mathlib.Core.List.{append_assoc}
use sozvon.Transfer.Object.{
  Bytes, connected, done, cancelled, closed, close, Sent, Happened, became, finished, Transfer,
  event, cancel, data_chunk,
}
use sozvon.Transfer.Chunks.{concat, cut_all, concat-cut_all, cut_all-ArePieces, IsPiece, IsSome}
use sozvon.Transfer.Closing.{counted-snoc}
use sozvon.Transfer.Data.{
  buffer_data, get_buffered_data, finish, complete, receive_data, on_data, on_reply, write,
  fresh_channel,
}

unfoldable pub receive_all : Bool → List Bytes → Transfer → Transfer
receive_all online [] f = f
receive_all online (b ∷ bs) f = receive_all online bs (on_data online b f)

-- The files that the application was given.
abbrev pub given : List Happened → List Bytes
given [] = []
given (finished blob ∷ es) = blob ∷ given es
given (became st ∷ es) = given es

-- A transfer that receives and has buffered `got`.
pub record IsReceiving (got : List Bytes) (f : Transfer) : Type 0 where
  pub downward : f.up ≡ false
  pub held : f.chunks ≡ got
  pub counted : f.datalen ≡ length (concat got)
  pub channel : f.dc ≡ some fresh_channel

on_data_more :
    (online : Bool) (b : Bytes) (got : List Bytes) (f : Transfer)
    → IsReceiving got f
    → f.datalen + length b < f.size
    → IsReceiving (got ++ b ∷ []) (on_data online b f)
      × ((on_data online b f).size ≡ f.size)
      × (given (on_data online b f).events ≡ given f.events)
unfolding on_data receive_data buffer_data event
on_data_more online b got f v h = ground (arith, counted-snoc got b)

on_data_last :
    (online : Bool) (b : Bytes) (got : List Bytes) (f : Transfer)
    → IsReceiving got f
    → f.datalen + length b ≡ f.size
    → ((on_data online b f).state ≡ done)
      × (given (on_data online b f).events ≡ concat (got ++ b ∷ []) ∷ given f.events)
unfolding on_data receive_data buffer_data event complete get_buffered_data finish
on_data_last online b got f v h = ground (arith, counted-snoc got b)

receive_all_lem :
    (online : Bool) (b : Bytes) (bs got : List Bytes) (f : Transfer)
    → IsReceiving got f
    → All IsPiece bs
    → f.datalen + length b + length (concat bs) ≡ f.size
    → ((receive_all online (b ∷ bs) f).state ≡ done)
      × (given (receive_all online (b ∷ bs) f).events ≡ concat (got ++ b ∷ bs) ∷ given f.events)
unfolding receive_all
receive_all_lem online b [] got f v h e = on_data_last online b got f v (omega arith)
receive_all_lem online b (c ∷ cs) got f v h e =
    let (r, size, same) =
      on_data_more online b got f v (omega (arith, length-append c (concat cs), h.0.0)) in
    let counts : (on_data online b f).datalen ≡ f.datalen + length b =
      omega (arith, r.counted, v.counted, counted-snoc got b) in
    let (d, g) =
      receive_all_lem online c cs (got ++ b ∷ []) (on_data online b f) r h.1
        (omega (arith, length-append c (concat cs), size, counts)) in
    (d, rw (same, append_assoc) at g)

-- The loop of `send`, over the pieces.
unfoldable pub write_all : Bool → List Bytes → Transfer → Transfer
write_all online [] f = f
write_all online (b ∷ bs) f = write_all online bs (write online b f)

abbrev pub data_sent : List Bytes → List Sent → List Sent
data_sent [] sent = sent
data_sent (b ∷ bs) sent = data_sent bs (data_chunk b ∷ sent)

-- A transfer that sends over an open channel.
pub record IsSending (f : Transfer) : Type 0 where
  pub upward : f.up ≡ true
  pub on_its_way : f.state ≡ connected
  pub out : f.dc ≡ some fresh_channel

write-IsSending :
    (online : Bool) (b : Bytes) (f : Transfer)
    → IsSending f
    → IsSending (write online b f)
      × ((write online b f).datalen ≡ f.datalen + length b)
      × ((write online b f).size ≡ f.size)
      × ((write online b f).sent ≡ data_chunk b ∷ f.sent)
unfolding write event
write-IsSending online b f v = ground arith

write_all_lem :
    (online : Bool) (bs : List Bytes) (f : Transfer)
    → IsSending f
    → IsSending (write_all online bs f)
      × ((write_all online bs f).datalen ≡ f.datalen + length (concat bs))
      × ((write_all online bs f).size ≡ f.size)
      × ((write_all online bs f).sent ≡ data_sent bs f.sent)
unfolding write_all
write_all_lem online [] f v = (v, omega arith, refl, refl)
write_all_lem online (b ∷ bs) f v =
    let (v', n, m, s) = write-IsSending online b f v in
    let (w, n', m', s') = write_all_lem online bs (write online b f) v' in
    (w, omega (arith, n, n', length-append b (concat bs)), m' ∙ m, s' ∙ ap (data_sent bs) s)

received_pieces :
    (online : Bool) (bs : List Bytes) (f : Transfer)
    → IsReceiving [] f
    → All IsPiece bs
    → f.size ≡ length (concat bs)
    → 1 ≤ length (concat bs)
    → ((receive_all online bs f).state ≡ done)
      × (given (receive_all online bs f).events ≡ concat bs ∷ given f.events)
received_pieces online [] f v h e k = absurd (omega (arith, k))
received_pieces online (b ∷ bs) f v h e k =
    receive_all_lem online b bs [] f v h.1 (omega (arith, v.counted, length-append b (concat bs)))

-- A receiver that has nothing yet, and whose file has the size of what the sender's reader gives in
-- `chunks`, none of them empty, is done after the last piece that is written for them, if there is
-- any, and the application is given exactly that file, once.
pub file_received :
    (online : Bool) (chunks : List Bytes) (f : Transfer)
    → IsReceiving [] f
    → All IsSome chunks
    → f.size ≡ length (concat chunks)
    → 1 ≤ f.size
    → ((receive_all online (cut_all chunks) f).state ≡ done)
      × (given (receive_all online (cut_all chunks) f).events ≡ concat chunks ∷ given f.events)
file_received online chunks f v h e k =
    let same = concat-cut_all chunks in
    rw same at (
      received_pieces online (cut_all chunks) f v (cut_all-ArePieces chunks h) (rw (← same) at e)
        (rw same (rw e at k)))

reply-events :
    (t : Transfer)
    → IsSending t
    → (on_reply true true t).events
      ≡ became closed ∷ became (if t.datalen == t.size then done else cancelled) ∷ t.events
unfolding on_reply close event cancel
reply-events t v = elim (Bool-cases (t.datalen == t.size)) [
  | inl e ↦ ground arith
  | inr e ↦ ground arith
]

-- A sender that has written nothing, and writes the chunks `chunks` in pieces, has sent these pieces
-- in order. The text `done` from the receiver then closes it, as done exactly when that was the whole
-- size of the file, and as cancelled otherwise.
pub file_sent :
    (chunks : List Bytes) (g : Transfer)
    → IsSending g
    → g.datalen ≡ 0
    → ((write_all true (cut_all chunks) g).sent ≡ data_sent (cut_all chunks) g.sent)
      × ((on_reply true true (write_all true (cut_all chunks) g)).events
          ≡ became closed
            ∷ became (if length (concat chunks) == g.size then done else cancelled)
            ∷ (write_all true (cut_all chunks) g).events)
file_sent chunks g v z =
    let (w, n, m, s) = write_all_lem true (cut_all chunks) g v in
    let same : (write_all true (cut_all chunks) g).datalen ≡ length (concat chunks) =
      omega (arith, n, z, ap length (concat-cut_all chunks)) in
    (
      s,
      reply-events (write_all true (cut_all chunks) g) w
          ∙ ap₂
              (λ (a b : ℕ).
                became closed
                ∷ became (if a == b then done else cancelled)
                ∷ (write_all true (cut_all chunks) g).events)
              same m,
    )

no_chunks : (chunks : List Bytes) → All IsSome chunks → length (concat chunks) ≡ 0 → chunks ≡ []
no_chunks [] h e = refl
no_chunks (c ∷ cs) h e = absurd (omega (arith, h.0, length-append c (concat cs)))

-- For an empty file nothing is written, so that neither end is ever done: whatever chunks, none of
-- them empty, its reader gives, sender and receiver stay as they were.
pub empty_file_waits :
    (online : Bool) (chunks : List Bytes) (f g : Transfer)
    → All IsSome chunks
    → length (concat chunks) ≡ 0
    → (write_all online (cut_all chunks) g ≡ g) × (receive_all online (cut_all chunks) f ≡ f)
unfolding write_all receive_all cut_all
empty_file_waits online chunks f g h e =
    let none_given = no_chunks chunks h e in rw none_given (refl, refl)
