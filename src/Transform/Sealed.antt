-- ===== src/Transform/Sealed.antt =====
-- What an encryptor passes on: sealed frames, each under an IV of its own, that the decryptor with
-- the same key opens.
use sozvon.Base.{
  ℕ, ◌+◌, ◌<◌, ◌%◌, ◌≡◌, refl, ◌∙◌, inl, inr, false, ◌&&◌, none, some, List, [], ◌∷◌, length,
  Option-cases,
}
use sozvon.Frames.{Bytes, Aead, IsAead, encrypt_frame}
use sozvon.Frames.RoundTrip.{decrypt_frame-encrypt_frame}
use sozvon.Transform.{
  Worker, Frame, Posted, on_message, Encryptor, encrypt, seal_with, get_key, Decryptor, passed,
  decrypt, decrypted,
}

module _ (aead : Aead) where
  -- What happens to an encryptor and its worker.
  pub data Event : Type 0 where
    posted : Posted aead → Event
    framed : Frame → Event

  unfoldable pub step : Event → Worker aead × Encryptor aead → Worker aead × Encryptor aead
  unfolding encrypt seal_with
  step (posted p) s = (on_message aead p s.0, s.1)
  step (framed f) s = (s.0, (encrypt aead s.0 s.1 f).0)

  unfoldable pub run : List Event → Worker aead × Encryptor aead → Worker aead × Encryptor aead
  run [] s = s
  run (x ∷ xs) s = run xs (step x s)

  -- Outside cleartext mode a frame is passed on only sealed, with the key of the encryptor's stream
  -- and the current key id, and the counter moves on.
  encrypt-sealed :
      (w : Worker aead) (e : Encryptor aead) (f : Frame) (out : Bytes)
      → w.cleartext ≡ false
      → (encrypt aead w e f).1 ≡ some out
      → (k : aead.Key) × (get_key aead e.stream_id w.send_key_id w ≡ some k)
        × (encrypt_frame aead f.bytes e.is_video
              (e.is_video && f.is_key)
              k
              e.salt
              e.counter
              w.send_key_id
            ≡ some out)
        × ((encrypt aead w e f).0.counter ≡ e.counter + 1)
  unfolding encrypt seal_with
  encrypt-sealed w e f out c o = elim (Option-cases (get_key aead e.stream_id w.send_key_id w)) [
    | inl k ↦ let x : none ≡ some out = rw (c, k, encrypt, seal_with) at o in cc
    | inr (key, k) ↦
        (key, k, (rw (c, k, encrypt, seal_with) at o), rw (c, k, encrypt, seal_with) refl)
  ]

  -- What an encryptor passes on outside cleartext mode, a decryptor of the same stream and kind
  -- passes on as the original frame, when its worker has the sender's key and is not in cleartext
  -- mode either, the salt has 6 bytes, the counter is below 2^48 and the key id below 256.
  pub decrypt-encrypt :
      (w v : Worker aead) (e : Encryptor aead) (d : Decryptor aead) (f : Frame) (now : ℕ)
      (out : Bytes)
      → IsAead aead
      → w.cleartext ≡ false
      → v.cleartext ≡ false
      → length e.salt ≡ 6
      → e.counter < 281474976710656
      → d.is_video ≡ e.is_video
      → get_key aead d.stream_id (w.send_key_id % 256) v ≡ get_key aead e.stream_id w.send_key_id w
      → (encrypt aead w e f).1 ≡ some out
      → decrypt aead v now d (record { bytes = out; is_key = f.is_key }) ≡ (d, passed f.bytes)
  unfolding decrypt decrypted
  decrypt-encrypt w v e d f now out law cw cv salted small kind shared o =
      let (k, g, s, n) = encrypt-sealed w e f out cw o in
      let opened =
        decrypt_frame-encrypt_frame aead f.bytes e.is_video (e.is_video && f.is_key) k e.salt
          e.counter w.send_key_id (λ key_id. get_key aead d.stream_id key_id v) out law salted small
          (shared ∙ g) s in
      let opened' = rw (← kind) at opened in rw (cv, opened', decrypt, decrypted) refl
