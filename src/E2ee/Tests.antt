-- ===== src/E2ee/Tests.antt =====
-- Runs of the controller, and the theorems at concrete inputs.
use sozvon.Base.{
  ℕ, ◌≡◌, refl, String, true, false, Option, none, some, List, [], ◌∷◌, ◌++◌, arith, if◌then◌else◌,
  str_eq, eq_iff, get_elem?,
}
use sozvon.E2ee.{
  Bytes, Crypto, Payload, Body, State, E2ee, Context, Worker, new_worker, new, can_encrypt,
  no_encrypt_reason, send, spawn,
}
use sozvon.E2ee.Policy.{
  is_started, may_publish_local_media, set_require, add_user, del_user, recompute, recompute_for,
  start_with, begin, reset_peer, fail, downgrade, continue_in_clear, attach_sender,
  announce_no_crypto, set_peer,
}
use sozvon.E2ee.Handshake.{
  started, timer_fires, finalize, set_peer_pub, got_commit, got_dh, hashed, dispatch, handle,
  on_message, agreed, salted, keyed, chat_keyed, signed,
}
use sozvon.E2ee.Chat.{Cipher, ChatPayload, Sealing, start_send, finish_send, receive, receive_all}
use sozvon.E2ee.Chat.Order.{IsAuthentic, Selected, receive_all-Selected, ArePaired, send_receive}
use sozvon.E2ee.Machine.{Event, requires, joins, receives, wakes, wake, step, run, task_at}
use sozvon.E2ee.Modes.{in_clear}
use sozvon.E2ee.Required.{required_never_clear}
use sozvon.E2ee.Orders.{IsOpen, says_nocrypto, late_nocrypto, late_require}
use sozvon.E2ee.Consent.{IsConsented, step-IsConsented}
use sozvon.E2ee.Commitment.{initiator_committed}

-- A toy cryptography that can be run.
abbrev toy : Crypto
toy = record {
  export_public = λ kp. kp ∷ [];
  commit = λ b. 1 ∷ b;
  agree = λ kp b. some (kp ∷ b);
  transcript = λ t. t.commit;
  derive_media_key = λ a b x. a;
  derive_chat_key = λ a b x. a;
  derive_sas = λ a b. a;
}

abbrev says : Body → Option Payload
says b = some (record { body = b; v = some 2 })

-- "a" is the initiator towards "b": it starts, takes the commitment and the key, and completes.
abbrev handshake : List Event
handshake =
    joins "b"
    ∷ wakes 0 7
    ∷ receives "b" (says Body.hello)
    ∷ receives "b" (says (Body.commit (some (1 ∷ 9 ∷ []))))
    ∷ receives "b" (says (Body.dh (some (9 ∷ []))))
    ∷ wakes 0 0
    ∷ []

abbrev completion : List Event
completion = wakes 0 0 ∷ wakes 0 0 ∷ wakes 0 0 ∷ wakes 0 0 ∷ wakes 0 0 ∷ wakes 0 0 ∷ wakes 0 0 ∷ []

machine : Unit {0}
unfolding run step wake set_require add_user del_user recompute recompute_for start_with begin
    reset_peer fail downgrade continue_in_clear attach_sender announce_no_crypto set_peer
    can_encrypt no_encrypt_reason send started timer_fires finalize set_peer_pub got_commit got_dh
    hashed dispatch handle on_message agreed salted keyed chat_keyed signed spawn
    may_publish_local_media
machine = tt

established_run :
    ((run toy (new "a" true) (handshake ++ completion ++ wakes 0 0 ∷ [])).state ≡ State.established)
    × (in_clear (run toy (new "a" true) (handshake ++ completion ++ wakes 0 0 ∷ [])) ≡ false)
unfolding machine
established_run = (refl, refl)

-- A message `nocrypto` just before the last part of the handshake: the call is announced as
-- encrypted, and the worker passes frames on in clear.
late_nocrypto_run :
    ((run toy
        (new "a" true)
        (handshake ++ completion ++ receives "b" (says Body.nocrypto) ∷ wakes 0 0 ∷ [])).state
      ≡ State.established)
    × (in_clear (
          run toy
            (new "a" true)
            (handshake ++ completion ++ receives "b" (says Body.nocrypto) ∷ wakes 0 0 ∷ []))
        ≡ true)
unfolding machine
late_nocrypto_run = (refl, refl)

abbrev unsafe : List Event
unsafe = joins "b" ∷ wakes 0 7 ∷ receives "b" (says Body.nocrypto) ∷ []

required_never_clear_example : in_clear (run toy (new "a" true) (requires true ∷ unsafe)) ≡ false
required_never_clear_example =
    required_never_clear toy (new "a" true) unsafe (λ h. cc) (λ p h. cc)
      ((λ b h. cc), ((λ b h. cc), ((λ b h. cc), tt)))

abbrev clear_call : E2ee
clear_call = run toy (new "a" true) unsafe

clear_call_runs_clear : (in_clear clear_call ≡ true) × (clear_call.state ≡ State.unencrypted)
unfolding machine
clear_call_runs_clear = (refl, refl)

-- The keys are made, and the peer has not said anything.
abbrev starting_call : E2ee
starting_call = run toy (new "a" true) (joins "b" ∷ wakes 0 7 ∷ [])

starting_call-IsOpen : IsOpen "b" starting_call
unfolding machine
starting_call-IsOpen = record {
  pair = refl;
  supports = refl;
  works = refl;
  optional = refl;
  unsealed = refl;
}

late_require_example :
    (((run toy starting_call (requires true ∷ receives "b" (says_nocrypto (some 2)) ∷ [])).state
        ≡ State.blocked)
      × (in_clear
            (run toy starting_call (requires true ∷ receives "b" (says_nocrypto (some 2)) ∷ []))
          ≡ false))
    × (((run toy starting_call (receives "b" (says_nocrypto (some 2)) ∷ requires true ∷ [])).require
          ≡ true)
        × ((run toy starting_call
              (receives "b" (says_nocrypto (some 2)) ∷ requires true ∷ [])).state
            ≡ State.unencrypted)
        × (in_clear
              (run toy starting_call (receives "b" (says_nocrypto (some 2)) ∷ requires true ∷ []))
            ≡ true)
        × (may_publish_local_media
              (run toy starting_call (receives "b" (says_nocrypto (some 2)) ∷ requires true ∷ []))
            ≡ true))
late_require_example =
    late_require toy "b" (some 2) starting_call new_worker starting_call-IsOpen
      (unfold machine in refl) (unfold is_started machine in refl)

abbrev secure_call : E2ee
secure_call = run toy (new "a" true) (handshake ++ completion ++ wakes 0 0 ∷ [])

step-IsConsented_example : IsConsented (step toy secure_call (receives "b" (says Body.nocrypto)))
unfolding machine
step-IsConsented_example =
    step-IsConsented toy secure_call (receives "b" (says Body.nocrypto)) (λ i kp ctx a b e h. refl)
      (record { asked = λ h k. refl; secure = λ h. refl })

-- Only the last part of the handshake is left.
abbrev last_part : E2ee
last_part = run toy (new "a" true) (handshake ++ completion)

abbrev late_context : Context
late_context = record {
  gen = 1;
  key_pair = 7;
  peer = "b";
  peer_pub = 9 ∷ [];
  transcript = record {
    initiator_id = "a";
    responder_id = "b";
    commit = 1 ∷ 9 ∷ [];
    initiator_pub = 7 ∷ [];
    responder_pub = 9 ∷ [];
  };
}

last_part-IsOpen : IsOpen "b" last_part
unfolding machine
last_part-IsOpen = record {
  pair = refl;
  supports = refl;
  works = refl;
  optional = refl;
  unsealed = refl;
}

last_worker : (w : Worker) × (last_part.worker ≡ some w)
unfolding machine
last_worker = (_, refl)

late_nocrypto_example :
    (((run toy last_part (receives "b" (says_nocrypto (some 2)) ∷ wakes 0 0 ∷ [])).state
        ≡ State.established)
      × (in_clear (run toy last_part (receives "b" (says_nocrypto (some 2)) ∷ wakes 0 0 ∷ []))
          ≡ true))
    × (((run toy last_part (wakes 0 0 ∷ receives "b" (says_nocrypto (some 2)) ∷ [])).state
          ≡ State.blocked)
        × (in_clear (run toy last_part (wakes 0 0 ∷ receives "b" (says_nocrypto (some 2)) ∷ []))
            ≡ false))
late_nocrypto_example =
    late_nocrypto toy late_context (7 ∷ 9 ∷ []) (1 ∷ 9 ∷ []) "b" (some 2) last_part last_worker.0 0
      0 last_part-IsOpen last_worker.1 (unfold machine in refl) (unfold machine task_at in refl)

initiator_committed_example : (run toy (new "a" true) handshake).peer_commit ≡ some (1 ∷ 9 ∷ [])
unfolding machine
initiator_committed_example = initiator_committed toy "a" true handshake (9 ∷ []) refl refl

abbrev written : List (String × Bytes)
written = ("", 72 ∷ []) ∷ ("me", 73 ∷ []) ∷ []

abbrev open_with : String → Option (String × Bytes) → Option Bytes
open_with kind none = none
open_with kind (some (k, t)) = if str_eq k kind then some t else none

-- A cipher whose ciphertext is the text, and one that opens only what stands in `written`.
abbrev plain : Cipher
plain = record { seal = λ k n t b. ([], t); unseal = λ k x b. some (x.1) }

abbrev ledger : Cipher
ledger = record {
  seal = λ k n t b. ([], t);
  unseal = λ k x b. open_with b.kind (get_elem? written b.seq);
}

open_with-eq :
    (kind : String) (o : Option (String × Bytes)) (t : Bytes)
    → open_with kind o ≡ some t
    → o ≡ some (kind, t)
open_with-eq kind none t h = cc
open_with-eq kind (some (k, u)) t h = ground (arith, eq_iff k kind)

ledger-IsAuthentic : IsAuthentic ledger (5 ∷ []) written
ledger-IsAuthentic x b t h = open_with-eq b.kind (get_elem? written b.seq) t h

abbrev incoming : ℕ → String → String × ChatPayload
incoming n kind = ("b", record { kind = some kind; seq = some n; iv = some []; ct = some [] })

abbrev talking : String → String → E2ee
talking me you = record (new me true) {
  state = State.established;
  session = record ((new me true).session) { peer = some you };
  chat = record { send_key = some (5 ∷ []); recv_key = some (5 ∷ []); send_seq = 0; recv_next = 0 };
}

receive_all-Selected_example :
    Selected written 0
      (receive_all ledger
        (incoming 1 "me" ∷ incoming 1 "me" ∷ incoming 0 "" ∷ [])
        (talking "a" "b")).1
receive_all-Selected_example =
    receive_all-Selected ledger written (5 ∷ [])
      (incoming 1 "me" ∷ incoming 1 "me" ∷ incoming 0 "" ∷ []) (talking "a" "b") ledger-IsAuthentic
      refl

talking-ArePaired : ArePaired (talking "a" "b") (talking "b" "a")
talking-ArePaired = record {
  a_established = refl;
  b_established = refl;
  keys = (5 ∷ [], refl, refl);
  a_peer = refl;
  b_peer = refl;
  seqs = refl;
  room = omega arith;
}

send_receive_example :
    (x : Sealing) × (p : ChatPayload) × (start_send plain 0 3 "me" (72 ∷ []) (talking "a" "b")
      ≡ some x)
    × ((finish_send x (talking "a" "b")).1 ≡ some ("b", p))
    × ((receive plain "a" p (talking "b" "a")).1
        ≡ some (record { kind = "me"; text = 72 ∷ []; missed = 0 }))
    × ((finish_send x (talking "a" "b")).0.send_seq
        ≡ (receive plain "a" p (talking "b" "a")).0.recv_next)
send_receive_example =
    send_receive plain 3 "me" (72 ∷ []) (talking "a" "b") (talking "b" "a") (λ k n t x. refl)
      talking-ArePaired
