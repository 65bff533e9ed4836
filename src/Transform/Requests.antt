-- ===== src/Transform/Requests.antt =====
-- A decryptor that cannot open its frames asks for keyframes, at most one a second.
use sozvon.Base.{ℕ, ◌+◌, ◌<◌, ◌≡◌, ◌≢◌, refl, inl, inr, true, List, [], ◌∷◌, arith, Bool-cases, All}
use sozvon.Frames.{Aead, Decrypted, plain, too_short, malformed, not_authentic, no_key}
use sozvon.Transform.{
  Worker, Frame, Decryptor, Handled, passed, dropped, decrypt, decrypted, failed,
}

module _ (aead : Aead) where
  -- A frame that arrives: the worker as it is then, the time and the frame.
  abbrev pub Arrival : Type 0
  Arrival = Worker aead × ℕ × Frame

  unfoldable pub run : List Arrival → Decryptor aead → List (Handled aead)
  run [] d = []
  run ((w, now, f) ∷ xs) d = let r = decrypt aead w now d f in r.1 ∷ run xs r.0

  decrypted-quiet :
      (now : ℕ) (d : Decryptor aead) (x : Decrypted)
      → now < d.last_request + 1000
      → ((decrypted aead now d x).0 ≡ d) × ((decrypted aead now d x).1 ≢ dropped true)
  unfolding decrypted failed
  decrypted-quiet now d (plain b) h = (refl, λ e. cc)
  decrypted-quiet now d too_short h = ground arith
  decrypted-quiet now d malformed h = ground arith
  decrypted-quiet now d not_authentic h = ground arith
  decrypted-quiet now d (no_key k) h = ground arith

  decrypt-quiet :
      (w : Worker aead) (now : ℕ) (d : Decryptor aead) (f : Frame)
      → now < d.last_request + 1000
      → ((decrypt aead w now d f).0 ≡ d) × ((decrypt aead w now d f).1 ≢ dropped true)
  unfolding decrypt
  decrypt-quiet w now d f h = elim (Bool-cases w.cleartext) [
    | inl c ↦ rw (c, decrypt) (refl, λ e. cc)
    | inr c ↦ rw (c, decrypt) (decrypted-quiet now d _ h)
  ]

  run-quiet :
      (xs : List Arrival) (d : Decryptor aead)
      → All (λ x. x.1 < d.last_request + 1000) xs
      → All (λ h. h ≢ dropped true) (run xs d)
  unfolding run
  run-quiet [] d h = tt
  run-quiet ((w, now, f) ∷ xs) d h =
      let (p, q) = decrypt-quiet w now d f h.0 in (q, rw p (run-quiet xs d h.1))

  decrypted-request :
      (now : ℕ) (d : Decryptor aead) (x : Decrypted)
      → (decrypted aead now d x).1 ≡ dropped true
      → (decrypted aead now d x).0.last_request ≡ now
  unfolding decrypted failed
  decrypted-request now d (plain b) e = cc
  decrypted-request now d too_short e = ground arith
  decrypted-request now d malformed e = ground arith
  decrypted-request now d not_authentic e = ground arith
  decrypted-request now d (no_key k) e = ground arith

  -- After a frame for which a keyframe is asked, none is asked for during the next second, however
  -- many frames cannot be decrypted.
  pub no_early_request :
      (w : Worker aead) (now : ℕ) (d : Decryptor aead) (f : Frame) (xs : List Arrival)
      → (decrypt aead w now d f).1 ≡ dropped true
      → All (λ x. x.1 < now + 1000) xs
      → All (λ h. h ≢ dropped true) (run xs (decrypt aead w now d f).0)
  unfolding decrypt
  no_early_request w now d f xs e h = elim (Bool-cases w.cleartext) [
    | inl c ↦ let x : passed f.bytes ≡ dropped true = rw (c, decrypt) at e in cc
    | inr c ↦
        let l : (decrypt aead w now d f).0.last_request ≡ now =
          rw (c, decrypt) (decrypted-request now d _ (rw (c, decrypt) at e)) in
        run-quiet xs _ (rw l h)
  ]
