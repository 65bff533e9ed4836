-- ===== src/Session/MessageMoves.antt =====
-- What a message from the server does to a session that runs.
use sozvon.Base.{
  ℕ, ◌≡◌, refl, inl, inr, true, false, not, ◌&&◌, ◌||◌, Option, none, some, List, [], ◌∷◌, ◌++◌,
  ◌==◌, if◌then◌else◌, arith, String, Bool-cases, Option-cases,
}
use mathlib.Core.List.{append_assoc, append-nil}
use sozvon.Signalling.{Message, SentLog, after, Argument, ping}
use sozvon.Session.State.{Session, Frame, numbered, opened, is_some, call, User}
use sozvon.Session.Sending.{close_socket, fail_with, transmit}
use sozvon.Session.Sockets.{stop_resuming}
use sozvon.Session.Phases.{
  Runs, Change, stays, replays, carried, on_socket, closings, closings-users_gone,
}
use sozvon.Session.Moves.{carried-eq, before-eq, with-eq, stays-same, send-Change}
use sozvon.Session.SocketMoves.{torn-Change, fail_with-Change}
use sozvon.Session.Incoming.{
  Incoming, rubbish, ping, pong, handshake, session, network, resumed, joined, user, other,
  got_handshake, replay, cannot_resume, got_resumed, dispatch, note, got_message, on_message,
  is_rubbish, is_handshake, pong_message, speaks_two,
}
use sozvon.Session.Members
use sozvon.Session.State.{JoinKind, join, change, leave, fail, UserKind, knocking, on_resumed}

-- Only the group, its users and the callbacks change, and no callback is the last one.
record Social (s t : Session) : Type 0 where
  wires : t.wire ≡ s.wire
  accepts : t.accepted ≡ s.accepted
  resumes : t.resuming ≡ s.resuming
  readies : t.ready ≡ s.ready
  logs : t.sent_log ≡ s.sent_log
  sockets : t.socket ≡ s.socket
  currents : t.current ≡ s.current
  mades : t.made ≡ s.made
  ends : t.closed ≡ s.closed
  secrets : t.resume_secret ≡ s.resume_secret
  told : closings t.calls ≡ closings s.calls

joined_as-Social :
    (kind : JoinKind) (m : Members.Joined) (s : Session) → Social s (Members.joined_as kind m s)
unfolding Members.joined_as Members.enter Members.depart
joined_as-Social leave m s = ground (arith, closings-users_gone s.member.users s.calls)
joined_as-Social fail m s = ground (arith, closings-users_gone s.member.users s.calls)
joined_as-Social join m s = ground arith
joined_as-Social change m s = ground arith
joined_as-Social _ m s = ground arith

user_as-Social :
    (kind : UserKind) (id : String) (u : User) (s : Session)
    → Social s (Members.user_as kind id u s)
unfolding Members.user_as Members.set_user
user_as-Social knocking id u s = ground arith
user_as-Social _ id u s = ground arith

-- What a session does besides leaves it running.
Social-Change :
    {P : Argument → Type 0} (k : ℕ) (s t : Session) → Runs k s → Social s t → Change P k s t
Social-Change k s t v q =
    stays (ground arith) (carried-eq _ _ q.wires) q.accepts (ground arith) (λ h. ground arith)

note-Runs : (k : ℕ) (m : Incoming) (now : ℕ) (s : Session) → Runs k s → Runs k (note m now s)
unfolding note
note-Runs k m now s v = ground arith

-- What is sent again goes out on the socket, if it is open, and changes nothing else.
wire_replay : ℕ → List Message → List (ℕ × Frame) → List (ℕ × Frame)
wire_replay k [] w = w
wire_replay k (m ∷ ms) w = wire_replay k ms ((k, numbered m) ∷ w)

replay-eq :
    (k : ℕ) (ms : List Message) (s : Session)
    → s.ready k ≡ opened
    → replay k ms s ≡ record s { wire = wire_replay k ms s.wire }
unfolding replay wire_replay transmit
replay-eq k [] s o = refl
replay-eq k (m ∷ ms) s o = ground (arith, replay-eq k ms (transmit k (numbered m) s) o)

on_socket-wire_replay :
    (k j : ℕ) (ms : List Message) (w : List (ℕ × Frame))
    → on_socket j (wire_replay k ms w) ≡ (if k == j then on_socket j w ++ ms else on_socket j w)
unfolding wire_replay
on_socket-wire_replay k j [] w = ground (arith, append-nil (on_socket j w))
on_socket-wire_replay k j (m ∷ ms) w = ground (
  arith,
  on_socket-wire_replay k j ms ((k, numbered m) ∷ w),
  append_assoc (on_socket j w) (m ∷ []) ms,
)

module _ (P : Argument → Type 0) (k : ℕ) (s : Session) (v : Runs k s) where
  got_handshake-Change : (x : Option (List String)) → Change P k s (got_handshake x s)
  unfolding got_handshake
  got_handshake-Change x = elim (Bool-cases (speaks_two x)) [
    | inl e ↦ Social-Change k s _ v (ground arith)
    | inr e ↦
        let s' : Session = record s { greeted = false } in
        with-eq k s _ (fail_with s') (ground arith)
          (before-eq k s s' _ refl refl refl (λ h. h) (fail_with-Change P k s' (ground arith)))
  ]

  cannot_resume-Change : Change P k s (cannot_resume k s)
  unfolding cannot_resume close_socket
  cannot_resume-Change =
      torn-Change P k s v 1006 (record (close_socket (some k) s) { current = none }) (ground arith)
        (ground arith) (ground arith) (ground arith) (ground arith)

  -- The session after the answer: what the server lacks was sent on `k`.
  caught_up : List Message → Session
  caught_up rest = call on_resumed (record s { resuming = none; wire = wire_replay k rest s.wire })

  got_resumed-eq :
      (a : Argument) (log : SentLog) (rest : List Message)
      → s.ready k ≡ opened
      → is_some s.resuming ≡ true
      → s.sent_log ≡ some log
      → after log a ≡ some rest
      → got_resumed k a s ≡ caught_up rest
  unfolding got_resumed caught_up stop_resuming
  got_resumed-eq a log rest o r l e = ground (arith, replay-eq k rest (stop_resuming s) o)

  caught_up-Runs : (rest : List Message) → s.ready k ≡ opened → Runs k (caught_up rest)
  unfolding caught_up
  caught_up-Runs rest o = ground arith

  got_resumed-Change : (a : Argument) → P a → s.ready k ≡ opened → Change P k s (got_resumed k a s)
  unfolding got_resumed caught_up
  got_resumed-Change a p o = elim (Bool-cases (is_some s.resuming)) [
    | inr e ↦ with-eq k s _ s (ground arith) (stays-same P k s v)
    | inl e ↦ elim (Option-cases (after v.log a)) [
      | inl q ↦ with-eq k s _ (cannot_resume k s) (ground arith) cannot_resume-Change
      | inr (rest, q) ↦
          with-eq k s _ (caught_up rest) (got_resumed-eq a v.log rest o e v.logged q) (
            replays a v.log rest (caught_up-Runs rest o) v.holds q p
              (λ j. unfold carried in on_socket-wire_replay k j rest s.wire) refl e refl)
    ]
  ]

  dispatch-Change :
      (m : Incoming)
      → ((a : Argument) → m ≡ resumed a → P a)
      → s.ready k ≡ opened
      → Change P k s (dispatch k m s)
  unfolding dispatch
  dispatch-Change rubbish p o = stays-same P k s v
  dispatch-Change (handshake x) p o = got_handshake-Change x
  dispatch-Change (session none) p o = stays-same P k s v
  dispatch-Change (session (some t)) p o =
      stays (ground arith) (carried-eq _ _ refl) refl refl (λ h. h)
  dispatch-Change (network none) p o = stays-same P k s v
  dispatch-Change (network (some n)) p o = Social-Change k s _ v (ground arith)
  dispatch-Change (resumed a) p o = got_resumed-Change a (p a refl) o
  dispatch-Change (joined m) p o =
      Social-Change k s _ v (unfold Members.joined in joined_as-Social m.kind m s)
  dispatch-Change (user m) p o =
      Social-Change k s _ v (unfold Members.user_message in user_as-Social m.kind m.id m.user s)
  dispatch-Change (other x) p o = Social-Change k s _ v (ground arith)
  dispatch-Change ping p o = send-Change P k s v pong_message
  dispatch-Change pong p o = stays-same P k s v

got_message-Change :
    (P : Argument → Type 0) (k : ℕ) (s : Session)
    → Runs k s
    → (m : Incoming) (now : ℕ) → ((a : Argument) → m ≡ resumed a → P a)
    → s.ready k ≡ opened
    → Change P k s (got_message k m now s)
unfolding got_message
got_message-Change P k s v m now p o =
    elim (Bool-cases (is_rubbish m || (not (is_handshake m) && not s.greeted))) [
      | inl e ↦ with-eq k s _ (fail_with s) (ground arith) (fail_with-Change P k s v)
      | inr e ↦ with-eq k s _ (dispatch k m (note m now s)) (ground arith) (
          before-eq k s (note m now s) _ (unfold note in refl) (unfold note in refl)
            (unfold note in refl) (λ h. unfold note in h)
            (dispatch-Change P k (note m now s) (note-Runs k m now s v) m p (unfold note in o)))
    ]

pub on_message-Change :
    (P : Argument → Type 0) (k : ℕ) (s : Session)
    → Runs k s
    → (j : ℕ) (m : Incoming) (now : ℕ) → ((a : Argument) → m ≡ resumed a → j ≡ k → P a)
    → s.ready j ≡ opened
    → Change P k s (on_message j m now s)
unfolding on_message
on_message-Change P k s v j m now p o = elim (Bool-cases (j == k)) [
  | inl e ↦
      with-eq k s _ (got_message k m now s) (ground arith)
        (got_message-Change P k s v m now (λ a r. p a r (ground arith)) (ground arith))
  | inr e ↦ with-eq k s _ s (ground arith) (stays-same P k s v)
]
