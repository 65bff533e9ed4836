-- ===== src/Session/Moves.antt =====
-- What each handler does to a session that runs.
use sozvon.Base.{
  ℕ, ◌≡◌, refl, sym, ap, ◌∙◌, ◌⊎◌, inl, inr, true, false, none, some, List, [], ◌∷◌, ◌++◌, ◌==◌,
  if◌then◌else◌, arith, Bool-cases,
}
use sozvon.Signalling.{Message, SentLog, Argument, push, counted}
use sozvon.Signalling.Replay.{Holds, push-Holds}
use sozvon.Session.State.{
  Session, Outgoing, Frame, numbered, bare, is_open, is_live, is_some, truthy,
}
use sozvon.Session.Sending.{close_socket, close, transmit, send, send_plain, send_logged, frame_of}
use sozvon.Session.Phases.{
  Runs, Change, stays, sends, keeps, replays, reopens, stops, carried, on_socket, close-Runs,
}

-- The messages on the sockets are read off `wire`.
pub carried-eq : (s t : Session) → t.wire ≡ s.wire → (j : ℕ) → carried j t ≡ carried j s
unfolding carried
carried-eq s t e j = rw e refl

-- The steps before a change may alter what a change does not speak of.
pub before-eq :
    {P : Argument → Type 0} (k : ℕ) (s s' t : Session)
    → s'.wire ≡ s.wire
    → s'.accepted ≡ s.accepted
    → s'.resuming ≡ s.resuming
    → (is_live (s'.ready k) ≡ true → is_live (s.ready k) ≡ true)
    → Change P k s' t
    → Change P k s t
before-eq k s s' t w a r l (stays v c q b i) =
    stays v (λ j. c j ∙ carried-eq s s' w j) (q ∙ a) (b ∙ ap is_some r) (λ h. l (i h))
before-eq k s s' t w a r l (sends m v c q b d i) =
    sends m v (λ j. ground (arith, c j, carried-eq s s' w j))
      (q ∙ ap (λ (x : List Message). x ++ m ∷ []) a) (ap is_some (sym r) ∙ b) d (l i)
before-eq k s s' t w a r l (keeps m v c q b i) =
    keeps m v (λ j. c j ∙ carried-eq s s' w j) (q ∙ ap (λ (x : List Message). x ++ m ∷ []) a)
      (b ∙ ap is_some r) i
before-eq k s s' t w a r l (replays x log rest v h f g c q b d) =
    replays x log rest v (rw (← a) h) f g (λ j. ground (arith, c j, carried-eq s s' w j)) (q ∙ a)
      (ap is_some (sym r) ∙ b) d
before-eq k s s' t w a r l (reopens v c q b) = reopens v (λ j. c j ∙ carried-eq s s' w j) (q ∙ a) b
before-eq k s s' t w a r l (stops v c q) = stops v (λ j. c j ∙ carried-eq s s' w j) (q ∙ a)

pub with-eq :
    {P : Argument → Type 0} (k : ℕ) (s t t' : Session) → t ≡ t' → Change P k s t' → Change P k s t
with-eq k s t t' e c = rw e c

module _ (P : Argument → Type 0) (k : ℕ) (s : Session) (v : Runs k s) where
  pub close-Change : Change P k s (close s)
  unfolding close close_socket
  close-Change = elim v.bound [
    | inl e ↦
        stays (close-Runs k s v) (λ j. unfold carried in rw e refl) (ground arith) (ground arith)
          (λ h. ground arith)
    | inr e ↦
        stays (close-Runs k s v) (λ j. unfold carried in rw e refl) (ground arith) (ground arith)
          (λ h. ground arith)
  ]

  transmit-Runs : (f : Frame) → Runs k (transmit k f s)
  unfolding transmit
  transmit-Runs f = ground arith

  pub stays-same : Change P k s s
  stays-same = stays v (λ j. refl) refl refl (λ h. h)

  pub transmit-stays :
      (f : Frame)
      → ((j : ℕ) → on_socket j ((k, f) ∷ s.wire) ≡ on_socket j s.wire)
      → Change P k s (transmit k f s)
  unfolding transmit carried
  transmit-stays f q = stays (transmit-Runs f) (λ j. ground (arith, q j)) refl refl (λ h. h)

  send_plain-Change :
      (m : Outgoing)
      → (s.socket ≡ none) ⊎ (counted m.type ≡ false)
      → Change P k s (send_plain m s).0
  unfolding send_plain frame_of
  send_plain-Change m (inl e) = with-eq k s _ s (ground arith) stays-same
  send_plain-Change m (inr c) = elim v.bound [
    | inl e ↦ with-eq k s _ s (ground arith) stays-same
    | inr e ↦ elim (Bool-cases (is_open (s.ready k))) [
      | inl o ↦
          with-eq k s _ (transmit k (bare m.text) s) (ground arith)
            (transmit-stays (bare m.text) (λ j. refl))
      | inr o ↦ with-eq k s _ s (ground arith) stays-same
    ]
  ]

  kept : SentLog → Message → Session
  kept log m = record s { sent_log = some (push log m); accepted = s.accepted ++ m ∷ [] }

  kept-Runs : (log : SentLog) (m : Message) → Holds log s.accepted → Runs k (kept log m)
  unfolding kept
  kept-Runs log m h = ground (arith, push-Holds log m s.accepted h)

  both : SentLog → Message → Session
  both log m = transmit k (numbered m) (kept log m)

  both-Runs : (log : SentLog) (m : Message) → Holds log s.accepted → Runs k (both log m)
  unfolding both transmit kept
  both-Runs log m h = ground (arith, push-Holds log m s.accepted h)

  carried-both :
      (log : SentLog) (m : Message)
      → is_open (s.ready k) ≡ true
      → (j : ℕ) → carried j (both log m) ≡ (if k == j then carried j s ++ m ∷ [] else carried j s)
  unfolding both transmit kept carried
  carried-both log m o j = rw o refl

  send_logged-Change :
      (log : SentLog) (m : Outgoing)
      → counted m.type ≡ true
      → Holds log s.accepted
      → Change P k s (send_logged k log m s).0
  unfolding send_logged frame_of
  send_logged-Change log m c h = elim (Bool-cases (is_open (s.ready k))) [
    | inl o ↦ elim (Bool-cases (is_some s.resuming)) [
      | inl r ↦ with-eq k s _ (kept log m.text) (unfold kept in ground arith) (
          keeps m.text (kept-Runs log m.text h) (carried-eq _ _ (unfold kept in refl))
            (unfold kept in refl) (unfold kept in refl) (unfold kept in ground arith))
      | inr r ↦
          with-eq k s _ (both log m.text)
            (unfold both in unfold kept in unfold transmit in ground arith)
            (sends m.text (both-Runs log m.text h) (carried-both log m.text o)
              (unfold both in unfold kept in unfold transmit in refl) r
              (unfold both in unfold kept in unfold transmit in r) (ground arith))
    ]
    | inr o ↦ elim (Bool-cases (truthy s.resume_secret)) [
      | inr t ↦ with-eq k s _ s (ground arith) stays-same
      | inl t ↦ with-eq k s _ (kept log m.text) (unfold kept in ground arith) (
          keeps m.text (kept-Runs log m.text h) (carried-eq _ _ (unfold kept in refl))
            (unfold kept in refl) (unfold kept in refl) (unfold kept in ground arith))
    ]
  ]

  pub send-Change : (m : Outgoing) → Change P k s (send m s).0
  unfolding send
  send-Change m = elim v.bound [
    | inl e ↦ with-eq k s _ (send_plain m s).0 (ground arith) (send_plain-Change m (inl e))
    | inr e ↦ elim (Bool-cases (counted m.type)) [
      | inl c ↦
          with-eq k s _ (send_logged k v.log m s).0 (ground arith)
            (send_logged-Change v.log m c v.holds)
      | inr c ↦ with-eq k s _ (send_plain m s).0 (ground arith) (send_plain-Change m (inr c))
    ]
  ]
