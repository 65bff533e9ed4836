-- ===== src/Transfer/Closing.antt =====
-- What can happen to a transfer (static/protocol.js, `TransferredFile`), and what becomes of one that
-- was closed.
use sozvon.Base.{
  ℕ, ◌+◌, ◌≡◌, refl, ap, ◌∙◌, inl, inr, String, Bool, true, false, not, ◌&&◌, ◌||◌, Option, none,
  some, List, [], ◌∷◌, ◌++◌, if◌then◌else◌, arith, Bool-cases, length, length-append,
}
use mathlib.Core.List.{append-nil}
use sozvon.Transfer.Object.{
  Bytes, State, connected, done, cancelled, is_closed, Transfer, make, event, close, cancel, fail,
}
use sozvon.Transfer.Chunks.{concat, concat-append}
use sozvon.Transfer.Data.{
  buffer_data, get_buffered_data, finish, complete, receive_data, on_data, on_reply,
  on_channel_close, on_settled, write, offer_ready, on_data_channel, on_stable, deafen, receive,
  answer, receive_file, answer_ready,
}

-- What can happen to a transfer. What the sender writes comes after its test of the direction.
pub data Event : Type 0 where
  app_cancels user_goes settling stable : Event
  app_receives offer_comes answer_comes cancel_comes answer_made : Event
  gets writes : Bytes → Event
  replies : Bool → Event
  channel_closes channel_opens offers : Event

unfoldable pub apply : Event → Bool → Transfer → Transfer
apply app_cancels online f = cancel online f
apply user_goes online f = fail f
apply settling online f = on_settled f
apply stable online f = if f.pc then on_stable f else f
apply (gets bytes) online f = on_data online bytes f
apply (writes bytes) online f = if f.up then write online bytes f else f
apply (replies is_done) online f = on_reply online is_done f
apply app_receives online f = receive f
apply offer_comes online f = answer online f
apply answer_comes online f = receive_file online f
apply cancel_comes online f = close (event cancelled f)
apply answer_made online f = answer_ready online f
apply channel_closes online f = on_channel_close online f
apply channel_opens online f = on_data_channel online f
apply offers online f = offer_ready online f

abbrev pub is_some {ℓ} : {A : Type ℓ} → Option A → Bool
is_some none = false
is_some (some a) = true

-- A closed transfer holds no connection, no channel and no data; a transfer that receives counts
-- what it holds.
pub record IsValid (f : Transfer) : Type 0 where
  pub shut : is_closed f.state && (f.pc || is_some f.dc) ≡ false
  pub emptied : (if is_closed f.state then f.datalen else 0) ≡ 0
  pub dropped : (if is_closed f.state then f.chunks else []) ≡ []
  pub counted : (if f.up then f.datalen else length (concat f.chunks)) ≡ f.datalen

pub make-IsValid : (userid id : String) (up : Bool) (size : ℕ) → IsValid (make userid id up size)
make-IsValid userid id true size = record {
  shut = refl;
  emptied = refl;
  dropped = refl;
  counted = refl;
}
make-IsValid userid id false size = record {
  shut = refl;
  emptied = refl;
  dropped = refl;
  counted = refl;
}

module _ (f : Transfer) (v : IsValid f) where
  close-IsValid : IsValid (close f)
  unfolding close event
  close-IsValid = ground arith

  event-IsValid : (st : State) → is_closed st ≡ false → IsValid (event st f)
  unfolding event
  event-IsValid st h = ground arith

pub cancel-IsValid : (online : Bool) (f : Transfer) → IsValid f → IsValid (cancel online f)
unfolding cancel close event
cancel-IsValid online f v = ground arith

fail-IsValid : (f : Transfer) → IsValid f → IsValid (fail f)
unfolding fail close event
fail-IsValid f v = ground arith

pub counted-snoc :
    (cs : List Bytes) (b : Bytes) → length (concat (cs ++ b ∷ [])) ≡ length (concat cs) + length b
counted-snoc cs b =
    ap length (concat-append cs (b ∷ []))
    ∙ length-append (concat cs) (b ++ [])
    ∙ ap (λ (x : Bytes). length (concat cs) + length x) (append-nil b)

module _ (online : Bool) (f : Transfer) (v : IsValid f) (o : is_closed f.state ≡ false) where
  buffered-IsValid :
      (b : Bytes)
      → f.up ≡ false
      → IsValid (record f { datalen = f.datalen + length b; chunks = f.chunks ++ b ∷ [] })
  buffered-IsValid b u = ground (arith, counted-snoc f.chunks b)

  complete-IsValid : IsValid (complete online f)
  unfolding complete get_buffered_data finish
  complete-IsValid = ground (
    arith,
    cancel-IsValid online f v,
    cancel-IsValid online (record f { chunks = []; datalen = 0 }),
  )

  deafen-IsValid : IsValid (deafen f)
  deafen-IsValid = ground arith

receive_data-IsValid :
    (online : Bool) (b : Bytes) (f : Transfer)
    → IsValid f
    → is_closed f.state ≡ false
    → IsValid (receive_data online b f)
unfolding receive_data buffer_data event
receive_data-IsValid online b f v o = elim (Bool-cases f.up) [
  | inl u ↦ ground (arith, cancel-IsValid online f v)
  | inr u ↦
      let f' : Transfer = record f {
        datalen = f.datalen + length b;
        chunks = f.chunks ++ b ∷ [];
      } in
      let v' = buffered-IsValid online f v o b u in
      ground (
        arith,
        event-IsValid f' v' connected refl,
        cancel-IsValid online f' v',
        complete-IsValid online (deafen f') (deafen-IsValid online f' v' o) o,
      )
]

reply-IsValid : (online d : Bool) (f : Transfer) → IsValid f → IsValid (on_reply online d f)
unfolding on_reply
reply-IsValid online d f v =
    ground
      (arith, cancel-IsValid online f v, close-IsValid (event done f) (event-IsValid f v done refl))

write-IsValid :
    (online : Bool) (b : Bytes) (f : Transfer)
    → f.up ≡ true
    → IsValid f
    → IsValid (write online b f)
unfolding write event
write-IsValid online b f u v = ground (arith, cancel-IsValid online f v)

apply-IsValid : (e : Event) (online : Bool) (f : Transfer) → IsValid f → IsValid (apply e online f)
unfolding apply on_settled on_stable on_data on_channel_close on_data_channel offer_ready receive
    answer receive_file answer_ready
apply-IsValid app_cancels online f v = cancel-IsValid online f v
apply-IsValid user_goes online f v = fail-IsValid f v
apply-IsValid settling online f v = ground (arith, close-IsValid f v)
apply-IsValid stable online f v = ground arith
apply-IsValid app_receives online f v = ground arith
apply-IsValid offer_comes online f v = ground (arith, cancel-IsValid online f v)
apply-IsValid answer_comes online f v = ground (arith, cancel-IsValid online f v)
apply-IsValid cancel_comes online f v =
    ground (arith, close-IsValid (event cancelled f) (event-IsValid f v cancelled refl))
apply-IsValid answer_made online f v = ground (arith, cancel-IsValid online f v)
apply-IsValid (gets b) online f v = ground (arith, receive_data-IsValid online b f v)
apply-IsValid (writes b) online f v = ground (arith, write-IsValid online b f)
apply-IsValid (replies d) online f v = reply-IsValid online d f v
apply-IsValid channel_closes online f v =
    ground (arith, cancel-IsValid online f v, close-IsValid f v)
apply-IsValid channel_opens online f v = ground (arith, cancel-IsValid online f v)
apply-IsValid offers online f v = ground arith

-- What begins a transfer anew, where `up` is whether it sends: the application calls `receive`, or an offer reaches one that sends.
abbrev pub begins : Event → Bool → Bool
begins app_receives up = not up
begins offer_comes up = up
begins _ up = false

-- What is as in `f` but for the calls of `onevent`.
abbrev pub IsAtRest : Transfer → Transfer → Type 0
IsAtRest f g = g ≡ record f { events = g.events }

-- The events with whether the server connection takes messages.
unfoldable pub run : List (Event × Bool) → Transfer → Transfer
run [] f = f
run (x ∷ xs) f = run xs (apply x.0 x.1 f)

pub run-IsValid : (es : List (Event × Bool)) (f : Transfer) → IsValid f → IsValid (run es f)
unfolding run
run-IsValid [] f v = v
run-IsValid (x ∷ xs) f v = run-IsValid xs _ (apply-IsValid x.0 x.1 f v)
