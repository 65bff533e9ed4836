-- ===== src/Session/Linked.antt =====
-- How the messages on the sockets stand to those that the server took and those accepted.
use sozvon.Base.{
  ℕ, ◌<◌, ◌≤◌, ◌≡◌, refl, sym, ap, ◌∙◌, ◌⊎◌, true, false, some, List, [], ◌∷◌, ◌++◌, ◌==◌,
  if◌then◌else◌, arith, length, drop,
}
use mathlib.Core.List.{append_assoc, append-nil}
use sozvon.Signalling.{Message, SentLog, after, whole}
use sozvon.Signalling.Replay.{Holds, after-Holds}
use sozvon.Session.State.{Session, is_live, is_some}
use sozvon.Session.Phases.{carried}
use sozvon.Session.Lifetime.{Inert}
use sozvon.Session.Server.{Server, Gave, taken}

-- The server has taken the first of the messages on its socket, and these with the ones before are
-- the first of all the messages accepted.
pub record Linked (s : Session) (v : Server) (unsent : List Message) : Type 0 where
  pub unread : List Message
  pub reading : carried v.at s ≡ v.here ++ unread
  pub sending : s.accepted ≡ v.before ++ (carried v.at s ++ unsent)
  pub empty : (j : ℕ) → v.at < j → carried j s ≡ []

-- A running client and the server agree on the socket, once the client is told.
pub record Tied (k : ℕ) (s : Session) (v : Server) : Type 0 where
  pub unsent : List Message
  pub linked : Linked s v unsent
  pub ahead : v.at ≤ k
  pub given : (j n : ℕ) → Gave j n v.answers → (j < v.at) ⊎ (j ≡ v.at) × (n ≡ length v.before)
  pub waiting : is_some s.resuming ≡ true → v.at ≡ k → carried k s ≡ []
  pub agreed : is_some s.resuming ≡ false → v.at ≡ k
  pub complete : is_some s.resuming ≡ false → is_live (s.ready k) ≡ true → unsent ≡ []

drop-append : (xs ys : List Message) → drop (length xs) (xs ++ ys) ≡ ys
drop-append [] ys = refl
drop-append (x ∷ xs) ys = drop-append xs ys

-- What a client that was told the number of the messages taken sends again.
pub told_rest :
    (log : SentLog) (s : Session) (v : Server) (rest : List Message) {us : List Message}
    (l : Linked s v us)
    → Holds log s.accepted
    → carried v.at s ≡ []
    → after log (whole (length v.before)) ≡ some rest
    → rest ≡ us
told_rest log s v rest {us} l h c e =
    let q : s.accepted ≡ v.before ++ us = rw c at l.sending in
    let d : drop (length v.before) s.accepted ≡ us = rw q (drop-append v.before us) in
    ground (arith, after-Holds log s.accepted h (length v.before), d)

module _ (k : ℕ) (s t : Session) (v : Server) (p : Tied k s v) where
  pub same-Linked :
      ((j : ℕ) → carried j t ≡ carried j s) → t.accepted ≡ s.accepted → Linked t v p.unsent
  same-Linked c q = record {
    unread = p.linked.unread;
    reading = c v.at ∙ p.linked.reading;
    sending = rw (c v.at) (q ∙ p.linked.sending);
    empty = λ j h. c j ∙ p.linked.empty j h;
  }

  -- A message goes out on the socket that both use, on which nothing was left to send.
  pub more-Linked :
      (ms rest : List Message)
      → v.at ≡ k
      → ((j : ℕ) → carried j t ≡ (if k == j then carried j s ++ ms else carried j s))
      → t.accepted ≡ v.before ++ ((carried v.at s ++ ms) ++ rest)
      → Linked t v rest
  more-Linked ms rest q c a =
      let here : carried v.at t ≡ carried v.at s ++ ms = ground (arith, c v.at) in
      record {
        unread = p.linked.unread ++ ms;
        reading =
            here
            ∙ ap (λ (x : List Message). x ++ ms) p.linked.reading
            ∙ append_assoc v.here p.linked.unread ms;
        sending = rw here a;
        empty = λ j h. ground (arith, c j, p.linked.empty j h);
      }

  -- A message is kept for later.
  pub kept-Linked :
      (m : Message)
      → ((j : ℕ) → carried j t ≡ carried j s)
      → t.accepted ≡ s.accepted ++ m ∷ []
      → Linked t v (p.unsent ++ m ∷ [])
  kept-Linked m c a = record {
    unread = p.linked.unread;
    reading = c v.at ∙ p.linked.reading;
    sending = rw (c v.at) (
        a
        ∙ ap (λ (x : List Message). x ++ m ∷ []) p.linked.sending
        ∙ append_assoc v.before (carried v.at s ++ p.unsent) (m ∷ [])
        ∙ ap (λ (x : List Message). v.before ++ x)
            (append_assoc (carried v.at s) p.unsent (m ∷ [])));
    empty = λ j h. c j ∙ p.linked.empty j h;
  }

pub last_sent :
    (xs ys us : List Message) (m : Message)
    → us ≡ []
    → (xs ++ (ys ++ us)) ++ m ∷ [] ≡ xs ++ ((ys ++ m ∷ []) ++ [])
last_sent xs ys us m e = rw e (simp (append-nil, append_assoc))

pub taken-accepted :
    (s : Session) (v : Server) {us : List Message} (l : Linked s v us)
    → s.accepted ≡ taken v ++ (l.unread ++ us)
taken-accepted s v l = l.sending ∙ simp (l.reading, append_assoc)

pub answer-Linked :
    (k : ℕ) (s : Session) (v : Server) (as' : List (ℕ × ℕ)) {us : List Message} (l : Linked s v us)
    → v.at < k
    → Linked s (record { at = k; before = taken v; here = []; answers = as' }) (l.unread ++ us)
answer-Linked k s v as' l h = record {
  unread = [];
  reading = l.empty k h;
  sending = rw (l.empty k h) (taken-accepted s v l);
  empty = λ j i. l.empty j (omega arith);
}

pub reads-Linked :
    (s : Session) (v : Server) (m : Message) (rest : List Message) {us : List Message}
    (l : Linked s v us)
    → carried v.at s ≡ v.here ++ m ∷ rest
    → Linked s (record v { here = v.here ++ m ∷ [] }) us
reads-Linked s v m rest l e = record {
  unread = rest;
  reading = e ∙ sym (append_assoc v.here (m ∷ []) rest);
  sending = l.sending;
  empty = l.empty;
}

same-wire : (s t : Session) → t.wire ≡ s.wire → (j : ℕ) → carried j t ≡ carried j s
unfolding carried
same-wire s t e j = rw e refl

pub Inert-Linked :
    (s t : Session) (v : Server) {us : List Message} → Inert s t → Linked s v us → Linked t v us
Inert-Linked s t v i l = record {
  unread = l.unread;
  reading = same-wire s t i.same_wire v.at ∙ l.reading;
  sending = rw (same-wire s t i.same_wire v.at) (i.same_accepted ∙ l.sending);
  empty = λ j h. same-wire s t i.same_wire j ∙ l.empty j h;
}
