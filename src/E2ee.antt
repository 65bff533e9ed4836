-- ===== src/E2ee.antt =====
-- static/e2ee.js: the state of the end-to-end encryption controller and the operations that the
-- rest of it is made of. The worker (static/e2ee-worker.js) is the record `Worker`; what is posted
-- to it is applied in order. An `await` ends a step: what follows it is a `Task` that some later
-- step of `Machine` wakes. The cryptography is the record `Crypto`.
pub mod Policy
pub mod Handshake
pub mod Chat
pub mod Machine
pub mod Modes
pub mod Required
pub mod Orders
pub mod Consent
pub mod Commitment
pub mod Tests
use sozvon.Base.{
  ℕ, suc, ◌+◌, String, Bool, true, false, ◌&&◌, ◌||◌, not, Option, none, some, List, [], ◌∷◌, ◌++◌,
  ◌==◌, if◌then◌else◌, str_eq, insert,
}

abbrev pub Bytes : Type 0
Bytes = List ℕ

-- The private key itself stays in the browser: a key pair is a handle.
abbrev pub KeyPair : Type 0
KeyPair = ℕ

-- What the handshake hashes into its salt.
pub record Transcript : Type 0 where
  pub initiator_id : String
  pub responder_id : String
  pub commit : Bytes
  pub initiator_pub : Bytes
  pub responder_pub : Bytes

-- WebCrypto as static/e2ee-crypto.js calls it; `agree` fails on bytes that are no public key.
pub record Crypto : Type 0 where
  pub export_public : KeyPair → Bytes
  pub commit : Bytes → Bytes
  pub agree : KeyPair → Bytes → Option Bytes
  pub transcript : Transcript → Bytes
  pub derive_media_key : Bytes → Bytes → String × String → Bytes
  pub derive_chat_key : Bytes → Bytes → String → Bytes
  pub derive_sas : Bytes → Bytes → List ℕ

-- `bytesEqual`: equal lengths, and no byte that differs.
unfoldable pub bytes_equal : Bytes → Bytes → Bool
bytes_equal [] [] = true
bytes_equal [] (b ∷ bs) = false
bytes_equal (a ∷ as') [] = false
bytes_equal (a ∷ as') (b ∷ bs) = a == b && bytes_equal as' bs

abbrev pub protocol_version : ℕ
protocol_version = 2

pub data Role : Type 0 where
  initiator responder : Role

pub data State : Type 0 where
  idle handshaking established unencrypted blocked failed : State

pub data Detail : Type 0 where
  unsupported transform multipeer peer_unsupported slow version commitment : Detail

-- The stream "<owner>|<kind>" is the pair of its parts.
pub record Worker : Type 0 where
  pub cleartext : Bool
  pub keys : List ((String × String) × Bytes)

pub data Body : Type 0 where
  hello nocrypto other : Body
  -- `none`: the field is no base64, and decoding it throws
  commit : Option Bytes → Body
  dh : Option Bytes → Body

pub record Payload : Type 0 where
  pub body : Body
  pub v : Option ℕ

-- What a completion of the handshake has captured.
pub record Context : Type 0 where
  pub gen : ℕ
  pub key_pair : KeyPair
  pub peer : String
  pub peer_pub : Bytes
  pub transcript : Transcript

pub data Task : Type 0 where
  -- `startWith` generates its keys
  starting : String → ℕ → Task
  -- `onMessage` waits for `startWith`
  resuming : Payload → Task
  -- the initiator hashes a public key
  hashing : Bytes → Task
  -- the parts of `finalize` between its awaits
  agreeing : Context → Task
  salting : Context → Bytes → Task
  keying : Context → Bytes → Bytes → String × String → List (String × String) → Task
  chatting : Context → Bytes → Bytes → Task
  signing : Context → Bytes → Bytes → Task

-- What belongs to one peer: all of it is taken back by `reset_peer`.
pub record Session : Type 0 where
  pub peer : Option String
  pub role : Option Role
  pub starting_for : Option String
  pub key_pair : Option KeyPair
  pub my_pub : Option Bytes
  pub my_commit : Option Bytes
  pub peer_pub : Option Bytes
  pub peer_commit : Option Bytes
  pub secret : Option Bytes
  pub sas : Option (List ℕ)
  pub peer_supports : Option Bool

pub record ChatKeys : Type 0 where
  pub send_key : Option Bytes
  pub recv_key : Option Bytes
  pub send_seq : ℕ
  -- the number after the last one accepted, which is `chatRecvSeq + 1`
  pub recv_next : ℕ

pub record E2ee : Type 0 where
  pub id : String
  pub supported : Bool
  pub transform_failed : Bool
  pub users : List String
  pub require : Bool
  pub session : Session
  pub open session use *
  pub chat : ChatKeys
  pub open chat use *
  -- a handshake timer is running, set in this generation
  pub timer : Option ℕ
  pub was_encrypted : Bool
  pub clear_agreed : Bool
  pub generation : ℕ
  pub state : State
  pub detail : Option Detail
  pub worker : Option Worker
  pub sent : List (String × Payload)
  pub tasks : List Task

abbrev pub no_session : Session
no_session = record {
  peer = none;
  role = none;
  starting_for = none;
  key_pair = none;
  my_pub = none;
  my_commit = none;
  peer_pub = none;
  peer_commit = none;
  secret = none;
  sas = none;
  peer_supports = none;
}

abbrev pub no_chat : ChatKeys
no_chat = record { send_key = none; recv_key = none; send_seq = 0; recv_next = 0 }

-- The constructor.
abbrev pub new : String → Bool → E2ee
new id supported = record {
  id = id;
  supported = supported;
  transform_failed = false;
  users = [];
  require = false;
  session = no_session;
  chat = no_chat;
  timer = none;
  was_encrypted = false;
  clear_agreed = false;
  generation = 0;
  state = idle;
  detail = none;
  worker = none;
  sent = [];
  tasks = [];
}

abbrev pub new_worker : Worker
new_worker = record { cleartext = false; keys = [] }

unfoldable pub ensure_worker : E2ee → E2ee
ensure_worker s = record s { worker = elim s.worker [ none ↦ some new_worker | some w ↦ some w ] }

-- The messages of the main thread to the worker.
unfoldable pub post_mode : Bool → Option Worker → Option Worker
post_mode b none = none
post_mode b (some w) = some (record w { cleartext = b })

unfoldable pub post_clear : Option Worker → Option Worker
post_clear none = none
post_clear (some w) = some (record w { keys = [] })

unfoldable pub post_key : String × String → Bytes → Option Worker → Option Worker
post_key stream k none = none
post_key stream k (some w) = some (record w { keys = (stream, k) ∷ w.keys })

unfoldable pub set_worker_mode : Bool → E2ee → E2ee
unfolding post_mode
set_worker_mode cleartext s =
    if s.supported then record s { worker = post_mode cleartext s.worker } else s

unfoldable pub set_state : State → Option Detail → E2ee → E2ee
set_state st d s = record s { state = st; detail = d }

unfoldable pub can_encrypt : E2ee → Bool
can_encrypt s = s.supported && not s.transform_failed

unfoldable pub no_encrypt_reason : E2ee → Detail
no_encrypt_reason s = if s.supported then transform else unsupported

unfoldable pub spawn : Task → E2ee → E2ee
spawn t s = record s { tasks = s.tasks ++ t ∷ [] }

-- `send`: every payload but `nocrypto` carries the version.
unfoldable pub send : Body → E2ee → E2ee
send b s = elim s.peer [
  | none ↦ s
  | some p ↦ record s {
    sent =
        (p, record { body = b; v = elim b [ nocrypto ↦ none | _ ↦ some protocol_version ] })
        ∷ s.sent;
  }
]
