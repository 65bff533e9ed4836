-- ===== src/Frames/RoundTrip.antt =====
-- A frame that is encrypted decrypts to what it was, with the key that it was encrypted with.
use sozvon.Base.{
  ℕ, zero, suc, ◌+◌, ◌-◌, ◌<◌, ◌≤◌, ◌%◌, ◌≡◌, refl, sym, ap, ◌∙◌, inl, inr, Bool, false, Option,
  none, some, [], ◌∷◌, ◌++◌, min, length, take, drop, take-append-drop, length-append, length-take,
  length-drop, arith, ltb, Option-cases,
}
use mathlib.Core.List.{append_assoc, append-nil}
use sozvon.Frames.{
  Bytes, Aead, IsAead, plain, encrypt_frame, decrypt_frame, decrypt_with, assemble, reassemble,
  concat, uint48, read_uint48, byte_at, or_zero, iv_from_salt_counter, clear_prefix_length,
}
use sozvon.Frames.Counter.{byte_at-append, read_uint48-uint48}

pub take-append : (n : ℕ) (xs ys : Bytes) → n ≡ length xs → take n (xs ++ ys) ≡ xs
take-append zero [] ys e = refl
take-append (suc n) [] ys e = absurd (omega (arith, e))
take-append zero (x ∷ xs) ys e = absurd (omega (arith, e))
take-append (suc n) (x ∷ xs) ys e = let r = take-append n xs ys (omega (arith, e)) in rw r refl

drop-append : (n : ℕ) (xs ys : Bytes) → n ≡ length xs → drop n (xs ++ ys) ≡ ys
drop-append zero [] ys e = refl
drop-append (suc n) [] ys e = absurd (omega (arith, e))
drop-append zero (x ∷ xs) ys e = absurd (omega (arith, e))
drop-append (suc n) (x ∷ xs) ys e = drop-append n xs ys (omega (arith, e))

length-uint48 : (n : ℕ) → length (uint48 n) ≡ 6
unfolding uint48
length-uint48 n = refl

-- The parts of an encrypted frame, found where `decryptFrame` looks for them.
module _ (header ct salt : Bytes) (counter key_id : ℕ) (salted : length salt ≡ 6)
    (small : counter < 281474976710656) where
  abbrev trailer : Bytes
  trailer = salt ++ (uint48 counter ++ (key_id % 256 ∷ []))

  abbrev whole : Bytes
  whole = header ++ (ct ++ trailer)

  length-trailer : length trailer ≡ 13
  length-trailer = omega (
    arith,
    length-append salt (uint48 counter ++ (key_id % 256 ∷ [])),
    length-append (uint48 counter) (key_id % 256 ∷ []),
    length-uint48 counter,
    salted,
  )

  length-whole : length whole ≡ length header + length ct + 13
  length-whole =
      omega (arith, length-append header (ct ++ trailer), length-append ct trailer, length-trailer)

  byte_at-key : byte_at whole (length whole - 1) ≡ key_id % 256
  byte_at-key =
      byte_at-append header (ct ++ trailer) _ (length ct + 12) (omega (arith, length-whole))
      ∙ byte_at-append ct trailer _ 12 refl
      ∙ byte_at-append salt _ _ 6 (omega (arith, salted))
      ∙ byte_at-append (uint48 counter) _ _ 0 (omega (arith, length-uint48 counter))
      ∙ (unfold byte_at or_zero in refl)

  counter_found : read_uint48 whole (length whole - 7) ≡ counter
  counter_found =
      let e : whole ≡ (header ++ (ct ++ salt)) ++ (uint48 counter ++ (key_id % 256 ∷ [])) =
        ap (λ (l : Bytes). header ++ l) (sym (append_assoc ct salt _))
        ∙ sym (append_assoc header (ct ++ salt) _) in
      ap (λ (l : Bytes). read_uint48 l (length whole - 7)) e
      ∙ read_uint48-uint48 (header ++ (ct ++ salt)) (key_id % 256 ∷ []) counter _
          (omega
            (arith, length-whole, length-append header (ct ++ salt), length-append ct salt, salted))
          small

  salt_found : take 6 (drop (length whole - 13) whole) ≡ salt
  salt_found =
      ap (take 6) (
        ap (drop (length whole - 13)) (sym (append_assoc header ct trailer))
        ∙ drop-append (length whole - 13) (header ++ ct) trailer
            (omega (arith, length-whole, length-append header ct)))
      ∙ take-append 6 salt _ (sym salted)

  ct_found : take (length whole - 13 - length header) (drop (length header) whole) ≡ ct
  ct_found =
      ap (take (length whole - 13 - length header)) (drop-append (length header) header _ refl)
      ∙ take-append _ ct trailer (omega (arith, length-whole))

  decrypt_with-whole :
      (aead : Aead) (key : aead.Key) (v kf : Bool) (k : ℕ)
      → min (clear_prefix_length v kf) (length whole - 13 - 16) ≡ length header
      → 16 ≤ length ct
      → decrypt_with aead whole v kf k (some key)
        ≡ reassemble aead header (aead.unseal key (iv_from_salt_counter salt counter) header ct)
  unfolding decrypt_with
  decrypt_with-whole aead key v kf k e h =
      let t : ltb (length whole - 13) 16 ≡ false = ground (arith, length-whole) in
      rw
        (
          salt_found,
          counter_found,
          e,
          ct_found,
          take-append (length header) header (ct ++ trailer) refl,
          t,
        )
        refl

  decrypt_frame-whole :
      (aead : Aead) (key : aead.Key) (v kf : Bool) (resolver : ℕ → Option aead.Key)
      → min (clear_prefix_length v kf) (length whole - 13 - 16) ≡ length header
      → 16 ≤ length ct
      → resolver (key_id % 256) ≡ some key
      → decrypt_frame aead whole v kf resolver
        ≡ reassemble aead header (aead.unseal key (iv_from_salt_counter salt counter) header ct)
  unfolding decrypt_frame
  decrypt_frame-whole aead key v kf resolver e h r =
      let t : ltb (length whole) 29 ≡ false = ground (arith, length-whole) in
      rw (t, byte_at-key, r) (decrypt_with-whole aead key v kf (key_id % 256) e h)

  assemble-whole :
      (aead : Aead) (out : Bytes)
      → assemble aead header salt counter key_id (some ct) ≡ some out
      → out ≡ whole
  unfolding assemble concat
  assemble-whole aead out e =
      let p : out ≡ header ++ (ct ++ (trailer ++ [])) = cc in
      p ∙ ap (λ (l : Bytes). header ++ (ct ++ l)) (append-nil trailer)

-- What one side encrypts, whatever the kind of the frame, the other decrypts to the same frame, if
-- it has the key under the key id's low byte, the salt has 6 bytes and the counter is below 2^48.
pub decrypt_frame-encrypt_frame :
    (aead : Aead) (content : Bytes) (v kf : Bool) (key : aead.Key) (salt : Bytes)
    (counter key_id : ℕ) (resolver : ℕ → Option aead.Key) (out : Bytes)
    → IsAead aead
    → length salt ≡ 6
    → counter < 281474976710656
    → resolver (key_id % 256) ≡ some key
    → encrypt_frame aead content v kf key salt counter key_id ≡ some out
    → decrypt_frame aead out v kf resolver ≡ plain content
unfolding encrypt_frame reassemble
decrypt_frame-encrypt_frame aead content v kf key salt counter key_id resolver out law salted small
      res e =
    let n = min (clear_prefix_length v kf) (length content) in
    let header = take n content in
    let body = drop n content in
    elim (Option-cases (aead.seal key (iv_from_salt_counter salt counter) header body)) [
      | inl q ↦ let x : none ≡ some out = (unfold assemble in rw q at e) in cc
      | inr (ct, q) ↦
          let out_whole =
            assemble-whole header ct salt counter key_id salted small aead out (rw q at e) in
          let longer = law.tag key _ header body ct q in
          let prefix : min (clear_prefix_length v kf)
                (length (whole header ct salt counter key_id salted small) - 13 - 16)
              ≡ length header =
            omega (
              arith,
              length-whole header ct salt counter key_id salted small,
              longer,
              length-take n content,
              length-drop n content,
            ) in
          rw
            (
              out_whole,
              decrypt_frame-whole header ct salt counter key_id salted small aead key v kf resolver
                  prefix (omega (arith, longer)) res,
              law.unseals key _ header body ct q,
            )
            (ap plain (take-append-drop n content))
    ]
