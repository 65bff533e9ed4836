-- ===== src/Frames.antt =====
-- static/e2ee-crypto.js, the bytes: the 48-bit counter, what is authenticated with a chat message or
-- a handshake, and the layout of an encrypted frame. AES-GCM and the text encoder are parameters. A
-- `Uint8Array` is a list of numbers below 256.
pub mod Counter
pub mod Authenticated
pub mod RoundTrip
pub mod Tests
use sozvon.Base.{
  ℕ, ◌+◌, ◌-◌, ◌*◌, ◌/◌, ◌%◌, min, String, Bool, Option, none, some, List, [], ◌∷◌, ◌++◌, length,
  take, drop, get_elem?, ltb, ◌≡◌, if◌then◌else◌,
}

abbrev pub Bytes : Type 0
Bytes = List ℕ

unfoldable pub concat : List Bytes → Bytes
concat [] = []
concat (a ∷ rest) = a ++ concat rest

-- `writeUint48`: `>>>` reads the low 32 bits of its operand.
unfoldable pub uint48 : ℕ → Bytes
uint48 n =
    n / 1099511627776 % 256
    ∷ n / 4294967296 % 256
    ∷ n % 4294967296 / 16777216 % 256
    ∷ n % 4294967296 / 65536 % 256
    ∷ n % 4294967296 / 256 % 256
    ∷ n % 256
    ∷ []

unfoldable pub or_zero : Option ℕ → ℕ
or_zero none = 0
or_zero (some b) = b

-- `buf[i]`, read only where there is one.
unfoldable pub byte_at : Bytes → ℕ → ℕ
unfolding or_zero
byte_at buf i = or_zero (get_elem? buf i)

unfoldable pub read_uint48 : Bytes → ℕ → ℕ
read_uint48 buf off =
    byte_at buf off * 1099511627776
    + byte_at buf (off + 1) * 4294967296
    + byte_at buf (off + 2) * 16777216
    + byte_at buf (off + 3) * 65536
    + byte_at buf (off + 4) * 256
    + byte_at buf (off + 5)

unfoldable pub length_prefixed : Bytes → Bytes
length_prefixed u8 = (length u8 / 256 % 256 ∷ length u8 % 256 ∷ []) ++ u8

-- `transcript`, before it is hashed.
unfoldable pub transcript_bytes : (String → Bytes) → String → String → Bytes → Bytes → Bytes → Bytes
unfolding concat length_prefixed
transcript_bytes encode initiator_id responder_id commit initiator_pub responder_pub = concat (
    encode "sozvon-e2ee-v2"
    ∷ length_prefixed (encode initiator_id)
    ∷ length_prefixed (encode responder_id)
    ∷ length_prefixed commit
    ∷ length_prefixed initiator_pub
    ∷ length_prefixed responder_pub
    ∷ [])

unfoldable pub chat_aad : (String → Bytes) → String → String → ℕ → String → Bytes
unfolding concat length_prefixed uint48
chat_aad encode sender_id recipient_id seq kind = concat (
    encode "sozvon-chat-v2"
    ∷ length_prefixed (encode sender_id)
    ∷ length_prefixed (encode recipient_id)
    ∷ uint48 seq
    ∷ length_prefixed (encode kind)
    ∷ [])

-- AES-GCM, with a key, an IV and additional data; either operation may throw.
pub record Aead : Type 1 where
  pub Key : Type 0
  pub seal : Key → Bytes → Bytes → Bytes → Option Bytes
  pub unseal : Key → Bytes → Bytes → Bytes → Option Bytes

-- What is sealed opens again, and is 16 bytes longer than its text.
pub record IsAead (aead : Aead) : Type 0 where
  pub unseals :
      (k : aead.Key) (iv aad p c : Bytes)
      → aead.seal k iv aad p ≡ some c
      → aead.unseal k iv aad c ≡ some p
  pub tag :
      (k : aead.Key) (iv aad p c : Bytes) → aead.seal k iv aad p ≡ some c → length c ≡ length p + 16

abbrev pub tag_bytes : ℕ
tag_bytes = 16

abbrev pub salt_bytes : ℕ
salt_bytes = 6

abbrev pub trailer_bytes : ℕ
trailer_bytes = 13

abbrev pub overhead : ℕ
overhead = 29

unfoldable pub clear_prefix_length : Bool → Bool → ℕ
clear_prefix_length is_video is_key_frame = if is_video then (if is_key_frame then 10 else 1) else 0

unfoldable pub iv_from_salt_counter : Bytes → ℕ → Bytes
unfolding uint48
iv_from_salt_counter salt counter = salt ++ uint48 counter

-- Why `decryptFrame` throws.
pub data Decrypted : Type 0 where
  plain : Bytes → Decrypted
  too_short malformed not_authentic : Decrypted
  no_key : ℕ → Decrypted

module _ (aead : Aead) where
  unfoldable pub assemble : Bytes → Bytes → ℕ → ℕ → Option Bytes → Option Bytes
  unfolding concat uint48
  assemble header salt counter key_id none = none
  assemble header salt counter key_id (some ct) =
      some (concat (header ∷ ct ∷ (salt ++ (uint48 counter ++ (key_id % 256 ∷ []))) ∷ []))

  unfoldable pub encrypt_frame : Bytes → Bool → Bool → aead.Key → Bytes → ℕ → ℕ → Option Bytes
  unfolding clear_prefix_length iv_from_salt_counter assemble
  encrypt_frame content is_video is_key_frame key salt counter key_id =
      let prefix_len = min (clear_prefix_length is_video is_key_frame) (length content) in
      let header = take prefix_len content in
      let body = drop prefix_len content in
      let iv = iv_from_salt_counter salt counter in
      assemble header salt counter key_id (aead.seal key iv header body)

  unfoldable pub reassemble : Bytes → Option Bytes → Decrypted
  reassemble header none = not_authentic
  reassemble header (some body) = plain (header ++ body)

  unfoldable pub decrypt_with : Bytes → Bool → Bool → ℕ → Option aead.Key → Decrypted
  unfolding clear_prefix_length iv_from_salt_counter reassemble read_uint48
  decrypt_with frame is_video is_key_frame key_id none = no_key key_id
  decrypt_with frame is_video is_key_frame key_id (some key) =
      let salt = take salt_bytes (drop (length frame - trailer_bytes) frame) in
      let counter = read_uint48 frame (length frame - 7) in
      let cipher_end = length frame - trailer_bytes in
      let prefix_len = min (clear_prefix_length is_video is_key_frame) (cipher_end - tag_bytes) in
      let header = take prefix_len frame in
      let ct = take (cipher_end - prefix_len) (drop prefix_len frame) in
      let iv = iv_from_salt_counter salt counter in
      if ltb cipher_end tag_bytes
      then malformed
      else reassemble header (aead.unseal key iv header ct)

  unfoldable pub decrypt_frame : Bytes → Bool → Bool → (ℕ → Option aead.Key) → Decrypted
  unfolding byte_at decrypt_with
  decrypt_frame frame is_video is_key_frame key_resolver =
      let key_id = byte_at frame (length frame - 1) in
      if ltb (length frame) overhead
      then too_short
      else decrypt_with frame is_video is_key_frame key_id (key_resolver key_id)
