-- ===== src/E2ee/Chat.antt =====
-- static/e2ee.js: `canChat`, `sendChatNow` and `decryptChatNow`. The two queues run one message at a
-- time; a message is cut at its await, and what follows is given the state of that moment.
pub mod Order
use sozvon.Base.{
  ℕ, suc, ◌+◌, ◌-◌, String, Bool, true, false, ◌&&◌, ◌||◌, not, Option, none, some, List, [], ◌∷◌,
  ◌++◌, ◌==◌, ltb, leb, if◌then◌else◌, str_eq,
}
use sozvon.E2ee.{Bytes, State, established, E2ee}
use sozvon.E2ee.Policy.{is_peer}

-- What a message is authenticated together with (`chatAAD`): who sent it to whom, its number and
-- its kind.
pub record Binding : Type 0 where
  pub sender : String
  pub recipient : String
  pub seq : ℕ
  pub kind : String

-- AES-GCM: `seal` also takes what makes the initialisation vector random; `unseal` is the check.
pub record Cipher : Type 0 where
  pub seal : Bytes → ℕ → Bytes → Binding → Bytes × Bytes
  pub unseal : Bytes → Bytes × Bytes → Binding → Option Bytes

-- A field of another type than expected is `none`; so is a number that is no natural one.
pub record ChatPayload : Type 0 where
  pub kind : Option String
  pub seq : Option ℕ
  pub iv : Option Bytes
  pub ct : Option Bytes

pub record Delivered : Type 0 where
  pub kind : String
  pub text : Bytes
  pub missed : ℕ

abbrev pub seq_limit : ℕ
seq_limit = 281474976710656

unfoldable pub is_established : State → Bool
is_established established = true
is_established _ = false

unfoldable pub can_chat : E2ee → Bool
unfolding is_established
can_chat s =
    is_established s.state
    && (elim s.send_key [ none ↦ false | some k ↦ true ])
    && (elim s.peer [ none ↦ false | some p ↦ true ])

-- What `sendChatNow` has captured at its await.
pub record Sealing : Type 0 where
  pub gen : ℕ
  pub peer : String
  pub seq : ℕ
  pub kind : String
  pub sealed : Bytes × Bytes

abbrev or_empty : Option String → String
or_empty none = ""
or_empty (some k) = k

unfoldable pub start_send_with :
    Cipher → ℕ → String → Bytes → Option String → Option Bytes → E2ee → Option Sealing
start_send_with c nonce kind text (some peer) (some key) s = some (record {
  gen = s.generation;
  peer = peer;
  seq = s.send_seq;
  kind = kind;
  sealed =
      c.seal key nonce text
        (record { sender = s.id; recipient = peer; seq = s.send_seq; kind = kind });
})
start_send_with c nonce kind text _ _ s = none

-- `gen` is the generation in which the message was written.
unfoldable pub start_send : Cipher → ℕ → ℕ → String → Bytes → E2ee → Option Sealing
unfolding start_send_with can_chat
start_send c gen nonce kind text s =
    if not (gen == s.generation) || not (can_chat s)
    then none
    else start_send_with c nonce kind text s.peer s.send_key s

-- The new state, and the message that goes out.
unfoldable pub finish_send : Sealing → E2ee → E2ee × Option (String × ChatPayload)
unfolding can_chat
finish_send x s = if not (x.gen == s.generation) || not (can_chat s) then (s, none) else (
  record s { chat = record (s.chat) { send_seq = x.seq + 1 } },
  some (
    x.peer,
    record { kind = some x.kind; seq = some x.seq; iv = some x.sealed.0; ct = some x.sealed.1 },
  ),
)

pub record Opening : Type 0 where
  pub gen : ℕ
  pub seq : ℕ
  pub kind : String
  pub opened : Option Bytes

unfoldable pub start_receive_with :
    Cipher
    → String
    → String
    → Option Bytes
    → Option Bytes
    → Option Bytes
    → Option ℕ
    → E2ee
    → Option Opening
start_receive_with c from kind (some key) (some iv) (some ct) (some seq) s =
    if ltb seq s.recv_next || leb seq_limit seq
    then none
    else some (record {
      gen = s.generation;
      seq = seq;
      kind = kind;
      opened =
          c.unseal key (iv, ct)
            (record { sender = from; recipient = s.id; seq = seq; kind = kind });
    })
start_receive_with c from kind _ _ _ _ s = none

-- `decryptChatNow` up to its await. The payload is there.
unfoldable pub start_receive : Cipher → String → ChatPayload → E2ee → Option Opening
unfolding start_receive_with is_established is_peer
start_receive c from p s =
    if not (is_established s.state) || not (is_peer from s.peer)
    then none
    else start_receive_with c from (or_empty p.kind) s.recv_key p.iv p.ct p.seq s

-- Bytes that do not open make the decryption throw.
unfoldable pub finish_receive : Opening → E2ee → E2ee × Option Delivered
finish_receive x s = elim x.opened [
  | none ↦ (s, none)
  | some text ↦ if not (x.gen == s.generation) then (s, none) else (
    record s { chat = record (s.chat) { recv_next = x.seq + 1 } },
    some (record { kind = x.kind; text = text; missed = x.seq - s.recv_next }),
  )
]

-- `decryptChat` of a message during which nothing else happens.
unfoldable pub receive : Cipher → String → ChatPayload → E2ee → E2ee × Option Delivered
unfolding start_receive finish_receive
receive c from p s = elim (start_receive c from p s) [
  | none ↦ (s, none)
  | some x ↦ finish_receive x s
]

-- A session's messages one after another, with the number under which each was let in.
unfoldable pub receive_all : Cipher → List (String × ChatPayload) → E2ee → E2ee × List Delivered
unfolding receive
receive_all c [] s = (s, [])
receive_all c ((from, p) ∷ ps) s =
    let r = receive c from p s in
    let rest = receive_all c ps r.0 in (rest.0, elim r.1 [ none ↦ rest.1 | some d ↦ d ∷ rest.1 ])
