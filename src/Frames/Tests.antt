-- ===== src/Frames/Tests.antt =====
-- A cipher and an encoding with which the assumptions on AES-GCM and on the text encoder hold, and
-- frames at concrete inputs.
use sozvon.Base.{
  units, units-injective, ℕ, ◌+◌, ◌-◌, ◌≡◌, refl, sym, ap, ◌∙◌, String, true, false, some, [], ◌∷◌,
  ◌++◌, length, length-append, take, arith,
}
use sozvon.Frames.{
  Bytes, Aead, IsAead, plain, encrypt_frame, decrypt_frame, assemble, concat, clear_prefix_length,
  iv_from_salt_counter, uint48,
}
use sozvon.Frames.RoundTrip.{take-append, decrypt_frame-encrypt_frame}
use sozvon.Frames.Authenticated.{chat_aad-injective, transcript_bytes-injective}

-- The key, sixteen times over, is the tag.
abbrev tag : ℕ → Bytes
tag k = k ∷ k ∷ k ∷ k ∷ k ∷ k ∷ k ∷ k ∷ k ∷ k ∷ k ∷ k ∷ k ∷ k ∷ k ∷ k ∷ []

abbrev pub toy : Aead
toy = record {
  Key = ℕ;
  seal = λ k iv aad p. some (p ++ tag k);
  unseal = λ k iv aad c. some (take (length c - 16) c);
}

toy_opens :
    (k : ℕ) (p c : Bytes) → some (p ++ tag k) ≡ some c → some (take (length c - 16) c) ≡ some p
toy_opens k p c e =
    let h : p ++ tag k ≡ c = cc in
    ap some (
      ap (λ l. take (length l - 16) l) (sym h)
      ∙ take-append (length (p ++ tag k) - 16) p (tag k) (omega (arith, length-append p (tag k))))

toy_tag : (k : ℕ) (p c : Bytes) → some (p ++ tag k) ≡ some c → length c ≡ length p + 16
toy_tag k p c e = let h : p ++ tag k ≡ c = cc in ap length (sym h) ∙ length-append p (tag k)

pub toy-IsAead : IsAead toy
toy-IsAead = record {
  unseals = λ k iv aad p c e. toy_opens k p c e;
  tag = λ k iv aad p c e. toy_tag k p c e;
}

abbrev salt : Bytes
salt = 1 ∷ 2 ∷ 3 ∷ 4 ∷ 5 ∷ 6 ∷ []

abbrev content : Bytes
content = 16 ∷ 17 ∷ 18 ∷ 19 ∷ []

abbrev sealed : Bytes
sealed = (16 ∷ 17 ∷ 18 ∷ 19 ∷ []) ++ (tag 9 ++ (salt ++ (0 ∷ 0 ∷ 0 ∷ 0 ∷ 1 ∷ 44 ∷ 0 ∷ [])))

encrypted : encrypt_frame toy content true false 9 salt 300 0 ≡ some sealed
unfolding encrypt_frame assemble concat clear_prefix_length iv_from_salt_counter uint48
encrypted = refl

decrypt_frame-encrypt_frame_example :
    decrypt_frame toy sealed true false (λ k. some 9) ≡ plain content
decrypt_frame-encrypt_frame_example =
    decrypt_frame-encrypt_frame toy content true false 9 salt 300 0 (λ k. some 9) sealed toy-IsAead
      refl (omega arith) refl encrypted

abbrev ann : String
ann = "ann"

abbrev bob : String
bob = "bob"

abbrev third : ℕ
third = 3

abbrev one_byte : ℕ → Bytes
one_byte b = b ∷ []

abbrev me : String
me = "me"

chat_aad-injective_example : (ann ≡ ann) × (bob ≡ bob) × (third ≡ third) × (me ≡ me)
chat_aad-injective_example =
    chat_aad-injective units units-injective ann ann bob bob third third me me (omega arith)
      (omega arith) (omega arith) (omega arith) (omega arith) (omega arith) (omega arith)
      (omega arith) refl

transcript_bytes-injective_example :
    (ann ≡ ann)
    × (bob ≡ bob)
    × ((one_byte 1) ≡ one_byte 1)
    × ((one_byte 2) ≡ one_byte 2)
    × ((one_byte 3) ≡ one_byte 3)
transcript_bytes-injective_example =
    transcript_bytes-injective units units-injective ann ann bob bob (one_byte 1) (one_byte 1)
      (one_byte 2) (one_byte 2) (one_byte 3) (one_byte 3) (omega arith) (omega arith) (omega arith)
      (omega arith) (omega arith) (omega arith) (omega arith) (omega arith) (omega arith)
      (omega arith) refl
