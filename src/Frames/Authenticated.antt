-- ===== src/Frames/Authenticated.antt =====
-- What is authenticated with a chat message determines the message: the lengths that stand before
-- the parts keep two different messages from giving the same bytes.
use sozvon.Base.{ℕ, ◌<◌, ◌/◌, ◌%◌, ◌≡◌, refl, sym, ◌∙◌, String, [], ◌∷◌, ◌++◌, length, arith}
use sozvon.Frames.{Bytes, concat, length_prefixed, uint48, chat_aad, transcript_bytes}
use mathlib.Core.List.{append_cancel_left}
use sozvon.Frames.Counter.{uint48-injective}

append-injective : (a b r s : Bytes) → length a ≡ length b → a ++ r ≡ b ++ s → (a ≡ b) × (r ≡ s)
append-injective [] [] r s l e = (refl, e)
append-injective [] (y ∷ b) r s l e = absurd (omega (arith, l))
append-injective (x ∷ a) [] r s l e = absurd (omega (arith, l))
append-injective (x ∷ a) (y ∷ b) r s l e =
    let h : x ≡ y = cc in
    let t : a ++ r ≡ b ++ s = cc in
    let (p, q) = append-injective a b r s (omega (arith, l)) t in (cc, q)

bytes_length :
    (m n : ℕ) → m < 65536 → n < 65536 → m / 256 % 256 ≡ n / 256 % 256 → m % 256 ≡ n % 256 → m ≡ n
bytes_length m n hm hn p q = omega arith

length_prefixed-injective :
    (a b r s : Bytes)
    → length a < 65536
    → length b < 65536
    → length_prefixed a ++ r ≡ length_prefixed b ++ s
    → (a ≡ b) × (r ≡ s)
unfolding length_prefixed
length_prefixed-injective a b r s ha hb e =
    append-injective a b r s (bytes_length (length a) (length b) ha hb (cc) (cc)) (cc)

length-uint48 : (n : ℕ) → length (uint48 n) ≡ 6
unfolding uint48
length-uint48 n = refl

module _ (encode : String → Bytes)
    (encode-injective : (s t : String) → encode s ≡ encode t → s ≡ t) where
  -- Two chat messages with the same authenticated bytes have the same sender, recipient, place in
  -- the sequence and kind, when the encoded texts are shorter than 65536 bytes and the counters
  -- below 2^48.
  pub chat_aad-injective :
      (s s' r r' : String) (n n' : ℕ) (k k' : String)
      → length (encode s) < 65536
      → length (encode s') < 65536
      → length (encode r) < 65536
      → length (encode r') < 65536
      → length (encode k) < 65536
      → length (encode k') < 65536
      → n < 281474976710656
      → n' < 281474976710656
      → chat_aad encode s r n k ≡ chat_aad encode s' r' n' k'
      → (s ≡ s') × (r ≡ r') × (n ≡ n') × (k ≡ k')
  unfolding chat_aad concat
  chat_aad-injective s s' r r' n n' k k' ls ls' lr lr' lk lk' ln ln' e =
      let a = append_cancel_left (encode "sozvon-chat-v2") _ _ e in
      let (es, b) = length_prefixed-injective (encode s) (encode s') _ _ ls ls' a in
      let (er, c) = length_prefixed-injective (encode r) (encode r') _ _ lr lr' b in
      let (en, d) =
        append-injective (uint48 n) (uint48 n') _ _ (length-uint48 n ∙ sym (length-uint48 n')) c in
      let (ek, f) = length_prefixed-injective (encode k) (encode k') _ _ lk lk' d in
      (
        encode-injective s s' es,
        encode-injective r r' er,
        uint48-injective n n' ln ln' en,
        encode-injective k k' ek,
      )

  -- Two handshakes with the same transcript before hashing have the same participants in the same
  -- roles, the same commitment and the same public keys, when all these are shorter than 65536
  -- bytes.
  pub transcript_bytes-injective :
      (i i' r r' : String) (c c' p p' q q' : Bytes)
      → length (encode i) < 65536
      → length (encode i') < 65536
      → length (encode r) < 65536
      → length (encode r') < 65536
      → length c < 65536
      → length c' < 65536
      → length p < 65536
      → length p' < 65536
      → length q < 65536
      → length q' < 65536
      → transcript_bytes encode i r c p q ≡ transcript_bytes encode i' r' c' p' q'
      → (i ≡ i') × (r ≡ r') × (c ≡ c') × (p ≡ p') × (q ≡ q')
  unfolding transcript_bytes concat
  transcript_bytes-injective i i' r r' c c' p p' q q' li li' lr lr' lc lc' lp lp' lq lq' e =
      let a = append_cancel_left (encode "sozvon-e2ee-v2") _ _ e in
      let (ei, b) = length_prefixed-injective (encode i) (encode i') _ _ li li' a in
      let (er, d) = length_prefixed-injective (encode r) (encode r') _ _ lr lr' b in
      let (ec, f) = length_prefixed-injective c c' _ _ lc lc' d in
      let (ep, g) = length_prefixed-injective p p' _ _ lp lp' f in
      let (eq, h) = length_prefixed-injective q q' _ _ lq lq' g in
      (encode-injective i i' ei, encode-injective r r' er, ec, ep, eq)
