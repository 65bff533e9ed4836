-- ===== src/Transform/Tests.antt =====
-- An encryptor and a decryptor at concrete inputs, with the cipher of `Frames.Tests`.
use sozvon.Base.{◌<◌, ◌≡◌, refl, true, false, none, some, List, [], ◌∷◌, arith, lookup, insert}
use sozvon.Frames.{
  Bytes, encrypt_frame, decrypt_frame, decrypt_with, assemble, reassemble, concat,
  clear_prefix_length, iv_from_salt_counter, uint48, byte_at, or_zero,
}
use sozvon.Frames.Tests.{toy, toy-IsAead}
use sozvon.Transform.{
  Worker, new, put, put_key, find, find_in, get_key, ring_of, schedule_key_frames, Frame, key,
  on_message, Encryptor, make_encryptor, encrypt, seal_with, Decryptor, passed, dropped, decrypt,
  decrypted, failed,
}
use sozvon.Transform.Sealed.{Event, framed, run, step, decrypt-encrypt}

machine : Unit {0}
unfolding encrypt_frame decrypt_frame decrypt_with assemble reassemble concat clear_prefix_length
    iv_from_salt_counter uint48 byte_at or_zero put put_key find find_in get_key ring_of
    schedule_key_frames on_message encrypt seal_with decrypt decrypted failed run step lookup insert
machine = tt

-- A worker that was sent one key.
abbrev keyed : Worker toy
keyed = on_message toy (key "ann|video" 0 9) (new toy)

abbrev camera : Encryptor toy
camera = make_encryptor toy "ann|video" true (1 ∷ 2 ∷ 3 ∷ 4 ∷ 5 ∷ 6 ∷ [])

abbrev picture : Frame
picture = record { bytes = 16 ∷ 17 ∷ []; is_key = false }

abbrev sealed : Bytes
sealed =
    16 ∷ 17 ∷ 9 ∷ 9 ∷ 9 ∷ 9 ∷ 9 ∷ 9 ∷ 9 ∷ 9 ∷ 9 ∷ 9 ∷ 9 ∷ 9 ∷ 9 ∷ 9 ∷ 9 ∷ 9 ∷ 1 ∷ 2 ∷ 3 ∷ 4 ∷ 5 ∷ 6
    ∷ 0 ∷ 0 ∷ 0 ∷ 0 ∷ 0 ∷ 0 ∷ 0 ∷ []

passes : (encrypt toy keyed camera picture).1 ≡ some sealed
unfolding machine
passes = refl

unkeyed : (encrypt toy (new toy) camera picture).1 ≡ none
unfolding machine
unkeyed = refl

open_keyed : keyed.cleartext ≡ false
unfolding machine
open_keyed = refl

abbrev next : List (Event toy)
next = framed picture ∷ []

abbrev later : Worker toy × Encryptor toy
later = run toy next (keyed, (encrypt toy keyed camera picture).0)

counted : later.1.counter < 281474976710656
unfolding machine
counted = omega arith

abbrev screen : Decryptor toy
screen = record { stream_id = "ann|video"; is_video = true; transformer = true; last_request = 0 }

shared : get_key toy "ann|video" 0 keyed ≡ get_key toy "ann|video" keyed.send_key_id keyed
unfolding machine
shared = refl

decrypt-encrypt_example :
    decrypt toy keyed 50 screen (record { bytes = sealed; is_key = false })
    ≡ (screen, passed picture.bytes)
unfolding machine
decrypt-encrypt_example =
    decrypt-encrypt toy keyed keyed camera screen picture 50 sealed toy-IsAead open_keyed open_keyed
      refl (omega arith) refl shared passes

asks : (decrypt toy (new toy) 5000 screen picture).1 ≡ dropped true
unfolding machine
asks = refl
