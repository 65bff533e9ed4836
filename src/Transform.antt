-- ===== src/Transform.antt =====
-- static/e2ee-worker.js: the worker that encrypts and decrypts media frames. The key table, the
-- messages of the main thread, an encryptor and a decryptor. A frame's cipher is that of `Frames`.
pub mod Sealed
pub mod Requests
pub mod Tests
use sozvon.Base.{
  ℕ, ◌+◌, String, Bool, true, false, ◌&&◌, Option, none, some, List, [], ◌∷◌, ◌==◌, leb,
  if◌then◌else◌, lookup, insert,
}
use sozvon.Frames.{Bytes, Aead, Decrypted, plain, encrypt_frame, decrypt_frame}

abbrev pub key_frame_request_ms : ℕ
key_frame_request_ms = 1000

pub record Frame : Type 0 where
  pub bytes : Bytes
  -- `frame.type === 'key'`
  pub is_key : Bool

module _ (aead : Aead) where
  -- The keys of a stream, by key id.
  abbrev pub Ring : Type 0
  Ring = List (ℕ × aead.Key)

  unfoldable pub find : ℕ → Ring → Option aead.Key
  find k [] = none
  find k ((j, v) ∷ m) = if j == k then some v else find k m

  unfoldable pub put : ℕ → aead.Key → Ring → Ring
  put k v [] = (k, v) ∷ []
  put k v ((j, w) ∷ m) = if j == k then (j, v) ∷ m else (j, w) ∷ put k v m

  -- The worker's globals. `waiting` is whether `keyFrameTimer` runs, `rounds` how often the
  -- encoders were asked for a keyframe.
  pub record Worker : Type 0 where
    pub keys : List (String × Ring)
    pub send_key_id : ℕ
    pub cleartext : Bool
    pub waiting : Bool
    pub rounds : ℕ

  abbrev pub new : Worker
  new = record { keys = []; send_key_id = 0; cleartext = false; waiting = false; rounds = 0 }

  unfoldable pub find_in : ℕ → Option Ring → Option aead.Key
  unfolding find
  find_in key_id none = none
  find_in key_id (some m) = find key_id m

  unfoldable pub get_key : String → ℕ → Worker → Option aead.Key
  unfolding find_in
  get_key stream_id key_id w = find_in key_id (lookup stream_id w.keys)

  unfoldable pub ring_of : Option Ring → Ring
  ring_of none = []
  ring_of (some m) = m

  unfoldable pub put_key : String → ℕ → aead.Key → Worker → Worker
  unfolding put ring_of
  put_key stream_id key_id key w = record w {
    keys = insert stream_id (put key_id key (ring_of (lookup stream_id w.keys))) w.keys;
  }

  unfoldable pub schedule_key_frames : Worker → Worker
  schedule_key_frames w = record w { waiting = true }

  -- The timer's callback.
  unfoldable pub ask_key_frames : Worker → Worker
  ask_key_frames w = record w { waiting = false; rounds = w.rounds + 1 }

  -- What the main thread posts; a key id is below 2^31, so that `| 0` leaves it as it is.
  pub data Posted : Type 0 where
    key : String → ℕ → aead.Key → Posted
    send_key : ℕ → Posted
    clear other : Posted
    mode : Bool → Posted

  unfoldable pub on_message : Posted → Worker → Worker
  unfolding put_key schedule_key_frames
  on_message (key stream_id key_id k) w = schedule_key_frames (put_key stream_id key_id k w)
  on_message (send_key key_id) w = schedule_key_frames (record w { send_key_id = key_id })
  on_message clear w = record w { keys = [] }
  on_message (mode cleartext) w = schedule_key_frames (record w { cleartext = cleartext })
  on_message other w = w

  pub record Encryptor : Type 0 where
    pub stream_id : String
    pub is_video : Bool
    pub salt : Bytes
    pub counter : ℕ

  -- `makeEncryptor`, with the random salt.
  abbrev pub make_encryptor : String → Bool → Bytes → Encryptor
  make_encryptor stream_id is_video salt = record {
    stream_id = stream_id;
    is_video = is_video;
    salt = salt;
    counter = 0;
  }

  unfoldable pub seal_with : Worker → Encryptor → Frame → Option aead.Key → Encryptor × Option Bytes
  seal_with w e frame none = (e, none)
  seal_with w e frame (some k) = (
    record e { counter = e.counter + 1 },
    encrypt_frame aead frame.bytes e.is_video (e.is_video && frame.is_key) k e.salt e.counter
        w.send_key_id,
  )

  -- One frame: the frame that is passed on, if one is.
  unfoldable pub encrypt : Worker → Encryptor → Frame → Encryptor × Option Bytes
  unfolding seal_with get_key
  encrypt w e frame =
      if w.cleartext
      then (e, some frame.bytes)
      else seal_with w e frame (get_key e.stream_id w.send_key_id w)

  pub record Decryptor : Type 0 where
    pub stream_id : String
    pub is_video : Bool
    -- Whether there is a transformer to ask the sender through.
    pub transformer : Bool
    pub last_request : ℕ

  -- What the transform does with a frame.
  pub data Handled : Type 0 where
    passed : Bytes → Handled
    -- dropped, and whether a keyframe is asked for
    dropped : Bool → Handled

  unfoldable pub failed : ℕ → Decryptor → Decryptor × Handled
  failed now d =
      if d.is_video && d.transformer && leb (d.last_request + key_frame_request_ms) now
      then (record d { last_request = now }, dropped true)
      else (d, dropped false)

  unfoldable pub decrypted : ℕ → Decryptor → Decrypted → Decryptor × Handled
  unfolding failed
  decrypted now d (plain bytes) = (d, passed bytes)
  decrypted now d _ = failed now d

  unfoldable pub decrypt : Worker → ℕ → Decryptor → Frame → Decryptor × Handled
  unfolding decrypted get_key
  decrypt w now d frame =
      if w.cleartext
      then (d, passed frame.bytes)
      else decrypted now d (
          decrypt_frame aead frame.bytes d.is_video (d.is_video && frame.is_key)
            (λ key_id. get_key d.stream_id key_id w))
