-- ===== src/Transfer/Tests.antt =====
-- Transfers at concrete inputs.
use sozvon.Base.{Bool, ◌≡◌, refl, true, false, some, List, [], ◌∷◌, arith, lookup, insert, erase}
use sozvon.Transfer.Object.{
  Bytes, State, connected, done, cancelled, closed, Transfer, Happened, became, event, close,
  cancel, fail, make,
}
use sozvon.Transfer.Object
use sozvon.Transfer.Chunks.{concat, cut_all}
use sozvon.Transfer.Data.{receive, answer, answer_ready, on_data_channel, receive_file}
use sozvon.Transfer.Dictionary.{
  Files, accepts, cancels, enter, on_invite, on_cancel, fullid, refuse,
}
use sozvon.Transfer.Closing.{user_goes, app_receives, apply, run}
use sozvon.Transfer.Course
use sozvon.Transfer.Course.{Event, invites, offers}
use sozvon.Transfer.Invited.{map_state, cancelled_invite_stays}
use sozvon.Transfer.Delivery.{receive_all, given, IsReceiving, IsSending, file_received}

machine : Unit {0}
unfolding receive answer answer_ready on_data_channel receive_file close cancel fail event apply run
machine = tt

abbrev file : List Bytes
file = (1 ∷ 2 ∷ []) ∷ (3 ∷ []) ∷ []

-- Both ends after the negotiation.
abbrev receiver : Transfer
receiver =
    receive_file true (receive (record (make "ann" "f1" false 3) { state = Object.inviting }))

abbrev sender : Transfer
sender = on_data_channel true (answer_ready true (answer true (make "bob" "f1" true 3)))

receiver-IsReceiving : IsReceiving [] receiver
unfolding machine
receiver-IsReceiving = record { downward = refl; held = refl; counted = refl; channel = refl }

sender-IsSending : IsSending sender
unfolding machine
sender-IsSending = record { upward = refl; on_its_way = refl; out = refl }

file_received_example :
    ((receive_all true (cut_all file) receiver).state ≡ done)
    × (given (receive_all true (cut_all file) receiver).events
        ≡ concat file ∷ given receiver.events)
file_received_example =
    file_received true file receiver receiver-IsReceiving (omega arith, (omega arith, tt))
      (unfold machine in refl) (unfold machine in omega arith)

abbrev left : Transfer
left = run ((app_receives, true) ∷ (user_goes, true) ∷ []) (make "ann" "f1" false 3)

abbrev nothing : Files
nothing = record { transfers = []; refusals = [] }

abbrev rejected : Files
rejected = on_invite cancels true "ann" "f1" (some ("1" ∷ [])) 3 nothing

-- The user offers another file and an offer comes too late.
abbrev meanwhile : List (Event × Bool)
meanwhile =
    (offers "ann" "f1" (some ("1" ∷ [])), true)
    ∷ (invites accepts "ann" "f2" (some ("1" ∷ [])) 4, true)
    ∷ []

cancelled_invite_stays_example :
    (map_state (lookup (fullid "ann" "f1") (Course.run meanwhile rejected).transfers) ≡ some closed)
    × (on_invite accepts true "ann" "f1" (some ("1" ∷ [])) 4 (Course.run meanwhile rejected)
        ≡ refuse "ann" "f1" (Course.run meanwhile rejected))
cancelled_invite_stays_example =
    cancelled_invite_stays "ann" "f1" 3 4 (some ("1" ∷ [])) (some ("1" ∷ [])) accepts true nothing
      meanwhile (unfold lookup in refl) refl (refl, (refl, tt))

-- A cancel message takes the closed transfer out.
cancel_frees : (on_cancel "ann" "f1" rejected).transfers ≡ []
unfolding on_cancel on_invite enter fullid lookup insert erase cancel close event
cancel_frees = refl
