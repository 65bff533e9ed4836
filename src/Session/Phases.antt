-- ===== src/Session/Phases.antt =====
-- The two phases of a session that was connected: carried by the socket `k`, and torn down.
use sozvon.Base.{
  ℕ, suc, ◌≡◌, refl, ◌⊎◌, inl, inr, Bool, true, false, not, ◌&&◌, ◌||◌, Option, none, some, List,
  [], ◌∷◌, ◌++◌, ◌==◌, if◌then◌else◌, arith, String, Bool-cases,
}
use sozvon.Signalling.{Message, SentLog, after, Argument, new}
use sozvon.Signalling.Replay.{Holds, new-Holds}
use sozvon.Session.State.{
  Session, Frame, numbered, hello, bare, Call, on_close, Ready, connecting, is_live, is_some,
  truthy, Resuming, attempt, pause, spent, User,
}
use sozvon.Session.Sending.{close_socket, close}
use sozvon.Session.Sockets.{gone, stop_resuming, farewell, users_gone, connect}
use sozvon.Session.Events.{begin}

-- The numbered messages that went out on the socket `j`.
abbrev pub on_socket : ℕ → List (ℕ × Frame) → List Message
on_socket j [] = []
on_socket j ((i, numbered m) ∷ w) = if i == j then on_socket j w ++ m ∷ [] else on_socket j w
on_socket j ((i, bare m) ∷ w) = on_socket j w
on_socket j ((i, hello h) ∷ w) = on_socket j w

unfoldable pub carried : ℕ → Session → List Message
carried j s = on_socket j s.wire

abbrev pub closings : List Call → ℕ
closings [] = 0
closings (on_close code ∷ cs) = suc (closings cs)
closings (c ∷ cs) = closings cs

abbrev pub is_connecting : Ready → Bool
is_connecting connecting = true
is_connecting _ = false

-- A timer is set that will do something.
abbrev pub has_timer : ℕ → Option Resuming → Bool
has_timer k none = true
has_timer k (some r) = elim r.timer [
  | none ↦ false
  | some t ↦ elim t.kind [ attempt j ↦ j == k | pause ↦ true | spent ↦ false ]
]

abbrev pub socket_live : Session → Bool
socket_live s = elim s.socket [ none ↦ false | some k ↦ is_live (s.ready k) ]

pub record Runs (k : ℕ) (s : Session) : Type 0 where
  pub running : s.closed ≡ false
  pub at : s.current ≡ some k
  pub last : suc k ≡ s.made
  pub bound : (s.socket ≡ none) ⊎ (s.socket ≡ some k)
  pub log : SentLog
  pub logged : s.sent_log ≡ some log
  pub holds : Holds log s.accepted
  pub told : closings s.calls ≡ 0
  pub secret :
      is_connecting (s.ready k) && not (is_some s.resuming) && truthy s.resume_secret ≡ false
  pub timed : has_timer k s.resuming ≡ true

pub record Over (s : Session) : Type 0 where
  pub ended : s.closed ≡ true
  pub unresumed : s.resuming ≡ none
  pub no_secret : truthy s.resume_secret ≡ false
  pub no_pings : s.ping_handler ≡ false
  pub cut : socket_live s ≡ false
  pub told_once : closings s.calls ≡ 1

pub closings-users_gone :
    (us : List (String × User)) (cs : List Call) → closings (users_gone us cs) ≡ closings cs
unfolding users_gone
closings-users_gone [] cs = refl
closings-users_gone (u ∷ us) cs = closings-users_gone us _

closings-farewell : (code : ℕ) (s : Session) → closings (farewell code s) ≡ suc (closings s.calls)
unfolding farewell
closings-farewell code s = elim (Bool-cases (truthy s.member.group)) [
  | inl e ↦ rw (e, closings-users_gone s.member.users) refl
  | inr e ↦ rw (e, closings-users_gone s.member.users) refl
]

pub begin-Runs : (now : ℕ) → Runs 0 (begin now)
unfolding begin connect
begin-Runs now = record {
  running = refl;
  at = refl;
  last = refl;
  bound = inr refl;
  log = new;
  logged = refl;
  holds = new-Holds;
  told = refl;
  secret = refl;
  timed = refl;
}

-- The teardown, where the session's socket is no longer open.
pub gone-Over :
    (code : ℕ) (s : Session)
    → s.closed ≡ false
    → closings s.calls ≡ 0
    → socket_live s ≡ false
    → Over (gone code s)
unfolding gone stop_resuming
gone-Over code s c t l =
    rw (c, gone)
      (record {
        ended = refl;
        unresumed = refl;
        no_secret = refl;
        no_pings = refl;
        cut = l;
        told_once = rw (closings-farewell, t) refl;
      })

pub close-Runs : (k : ℕ) (s : Session) → Runs k s → Runs k (close s)
unfolding close close_socket
close-Runs k s v = elim v.bound [ inl e ↦ ground arith | inr e ↦ ground arith ]

-- What an event did to a session that runs on the socket `k`.
pub data Change (P : Argument → Type 0) (k : ℕ) (s t : Session) : Type 0 where
  -- nothing was sent that is numbered
  stays :
      Runs k t
      → ((j : ℕ) → carried j t ≡ carried j s)
      → t.accepted ≡ s.accepted
      → is_some t.resuming ≡ is_some s.resuming
      → (is_live (t.ready k) ≡ true → is_live (s.ready k) ≡ true)
      → Change P k s t
  -- a message was sent on the socket
  sends :
      (m : Message)
      → Runs k t
      → ((j : ℕ) → carried j t ≡ (if k == j then carried j s ++ m ∷ [] else carried j s))
      → t.accepted ≡ s.accepted ++ m ∷ []
      → is_some s.resuming ≡ false
      → is_some t.resuming ≡ false
      → is_live (s.ready k) ≡ true
      → Change P k s t
  -- a message was kept for later
  keeps :
      (m : Message)
      → Runs k t
      → ((j : ℕ) → carried j t ≡ carried j s)
      → t.accepted ≡ s.accepted ++ m ∷ []
      → is_some t.resuming ≡ is_some s.resuming
      → is_some t.resuming || not (is_live (t.ready k)) ≡ true
      → Change P k s t
  -- the server's answer `a` was followed by what it lacks
  replays :
      (a : Argument) (log : SentLog) (rest : List Message)
      → Runs k t
      → Holds log s.accepted
      → after log a ≡ some rest
      → P a
      → ((j : ℕ) → carried j t ≡ (if k == j then carried j s ++ rest else carried j s))
      → t.accepted ≡ s.accepted
      → is_some s.resuming ≡ true
      → is_some t.resuming ≡ false
      → Change P k s t
  -- a new socket was opened
  reopens :
      Runs (suc k) t
      → ((j : ℕ) → carried j t ≡ carried j s)
      → t.accepted ≡ s.accepted
      → is_some t.resuming ≡ true
      → Change P k s t
  -- the session was torn down
  stops : Over t → ((j : ℕ) → carried j t ≡ carried j s) → t.accepted ≡ s.accepted → Change P k s t
