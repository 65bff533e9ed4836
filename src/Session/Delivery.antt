-- ===== src/Session/Delivery.antt =====
-- Every numbered message is taken by the server once and in order.
use sozvon.Base.{
  ℕ, suc, ◌<◌, ◌≡◌, refl, sym, ap, ◌∙◌, ◌⊎◌, inl, inr, Bool, true, false, some, List, [], ◌∷◌, ◌++◌,
  ◌==◌, if◌then◌else◌, arith, length,
}
use mathlib.Core.List.{append-nil}
use sozvon.Signalling.{Message, SentLog, after, Argument, whole}
use sozvon.Signalling.Replay.{Holds}
use sozvon.Session.State.{Session, is_live, is_some}
use sozvon.Session.Incoming.{resumed}
use sozvon.Session.Events.{Event, gets, begin}
use sozvon.Session.Phases.{
  Runs, Over, Change, stays, sends, keeps, replays, reopens, stops, carried, begin-Runs,
}
use sozvon.Session.Lifetime.{apply-Change, apply-Inert, Answered}
use sozvon.Session.Server.{
  Server, World, taken, IsSent, Move, acts, reads, answer, Course, start, later,
}
use sozvon.Session.Linked.{
  Linked, Tied, told_rest, last_sent, same-Linked, more-Linked, kept-Linked, answer-Linked,
  reads-Linked, Inert-Linked, taken-accepted,
}
use sozvon.Session.Sockets.{connect}

abbrev Joint : Session → Server → Type 0
Joint s v = ((k : ℕ) × Runs k s × Tied k s v) ⊎ (Over s × (us : List Message) × Linked s v us)

ap_not : {b : Bool} → b ≡ false → b ≡ true → ⊥
ap_not p q = cc

module _ (e : Event) (k : ℕ) (s t : Session) (v : Server) (p : Tied k s v) (sent : IsSent v e) where
  number_given :
      (x : Argument) → e ≡ gets k (resumed x) → (x ≡ whole (length v.before)) × (v.at ≡ k)
  number_given x g =
      let told : IsSent v (gets k (resumed x)) = rw g at sent in
      let (n, same, m) = told in
      elim (p.given k n m) [
        | inl below ↦ absurd (omega (arith, p.ahead))
        | inr (at, num) ↦ (same ∙ ap whole num, sym at)
      ]

  replays-Tied :
      (x : Argument) (log : SentLog) (rest : List Message)
      → Holds log s.accepted
      → after log x ≡ some rest
      → e ≡ gets k (resumed x)
      → ((j : ℕ) → carried j t ≡ (if k == j then carried j s ++ rest else carried j s))
      → t.accepted ≡ s.accepted
      → is_some s.resuming ≡ true
      → is_some t.resuming ≡ false
      → Tied k t v
  replays-Tied x log rest h f g c a b d =
      let (same, at) = number_given x g in
      let none_yet : carried v.at s ≡ [] = rw at (p.waiting b at) in
      let all = told_rest log s v rest p.linked h none_yet (rw same at f) in
      record {
        unsent = [];
        linked = more-Linked k s t v p rest [] at c (rw (all, append-nil) (a ∙ p.linked.sending));
        ahead = p.ahead;
        given = p.given;
        waiting = λ h q. absurd (ap_not d h);
        agreed = λ h. at;
        complete = λ h j. refl;
      }

  Change-Joint : Change (Answered k e) k s t → Joint t v
  Change-Joint (stays r c a b l) = inl (
    k,
    r,
    record {
      unsent = p.unsent;
      linked = same-Linked k s t v p c a;
      ahead = p.ahead;
      given = p.given;
      waiting = λ h q. c k ∙ p.waiting (sym b ∙ h) q;
      agreed = λ h. p.agreed (sym b ∙ h);
      complete = λ h i. p.complete (sym b ∙ h) (l i);
    },
  )
  Change-Joint (sends m r c a b d i) =
      let nothing = p.complete b i in
      let at = p.agreed b in
      inl (
        k,
        r,
        record {
          unsent = [];
          linked = more-Linked k s t v p (m ∷ []) [] at c (
              a
              ∙ ap (λ (y : List Message). y ++ m ∷ []) p.linked.sending
              ∙ last_sent v.before (carried v.at s) p.unsent m nothing);
          ahead = p.ahead;
          given = p.given;
          waiting = λ h q. absurd (ap_not d h);
          agreed = λ h. at;
          complete = λ h j. refl;
        },
      )
  Change-Joint (keeps m r c a b i) = inl (
    k,
    r,
    record {
      unsent = p.unsent ++ m ∷ [];
      linked = kept-Linked k s t v p m c a;
      ahead = p.ahead;
      given = p.given;
      waiting = λ h q. c k ∙ p.waiting (sym b ∙ h) q;
      agreed = λ h. p.agreed (sym b ∙ h);
      complete = λ h j. absurd (ground arith);
    },
  )
  Change-Joint (reopens r c a b) = inl (
    suc k,
    r,
    record {
      unsent = p.unsent;
      linked = same-Linked k s t v p c a;
      ahead = omega (arith, p.ahead);
      given = p.given;
      waiting = λ h q. c (suc k) ∙ p.linked.empty (suc k) (omega (arith, p.ahead));
      agreed = λ h. absurd (ap_not h b);
      complete = λ h j. absurd (ap_not h b);
    },
  )
  Change-Joint (stops o c a) = inr (o, p.unsent, same-Linked k s t v p c a)
  Change-Joint (replays x log rest r h f g c a b d) =
      inl (k, r, replays-Tied x log rest h f g c a b d)

answer-Tied :
    (i k : ℕ) (s : Session) (v : Server)
    → Runs i s
    → Tied i s v
    → v.at < k
    → k < s.made
    → Tied i s (record {
      at = k;
      before = taken v;
      here = [];
      answers = (k, length (taken v)) ∷ v.answers;
    })
answer-Tied i k s v r p h b = record {
  unsent = p.linked.unread ++ p.unsent;
  linked = answer-Linked k s v _ p.linked h;
  ahead = omega (arith, r.last);
  given = λ j n g. elim g [
    | inl (x, y) ↦ inr (x, y)
    | inr before ↦ elim (p.given j n before) [
      | inl x ↦ inl (omega arith)
      | inr (x, y) ↦ inl (omega arith)
    ]
  ];
  waiting = λ q e. p.linked.empty i (omega arith);
  agreed = λ q. absurd (omega (arith, p.agreed q, r.last));
  complete = λ q e. absurd (omega (arith, p.agreed q, r.last));
}

reads-Tied :
    (i : ℕ) (s : Session) (v : Server) (m : Message) (rest : List Message) (p : Tied i s v)
    → carried v.at s ≡ v.here ++ m ∷ rest
    → Tied i s (record v { here = v.here ++ m ∷ [] })
reads-Tied i s v m rest p e = record {
  unsent = p.unsent;
  linked = reads-Linked s v m rest p.linked e;
  ahead = p.ahead;
  given = p.given;
  waiting = p.waiting;
  agreed = p.agreed;
  complete = p.complete;
}

Move-Joint : {w u : World} → Joint w.client w.server → Move w u → Joint u.client u.server
Move-Joint {w} (inl (k, r, p)) (acts e now o g) =
    Change-Joint e k w.client _ w.server p g (apply-Change k e now w.client r o)
Move-Joint {w} (inl (k, r, p)) (reads m rest e) =
    inl (k, r, reads-Tied k w.client w.server m rest p e)
Move-Joint {w} (inl (i, r, p)) (answer k h b) =
    inl (i, r, answer-Tied i k w.client w.server r p h b)
Move-Joint {w} (inr (o, us, l)) (acts e now c g) =
    let i = apply-Inert e now w.client o c in
    inr (i.still_over, us, Inert-Linked w.client _ w.server i l)
Move-Joint {w} (inr (o, us, l)) (reads m rest e) =
    inr (o, us, reads-Linked w.client w.server m rest l e)
Move-Joint {w} (inr (o, us, l)) (answer k h b) = inr (o, _, answer-Linked k w.client w.server _ l h)

begin-Tied :
    (now : ℕ) → Tied 0 (begin now) (record { at = 0; before = []; here = []; answers = [] })
unfolding carried begin connect
begin-Tied now = record {
  unsent = [];
  linked = record { unread = []; reading = refl; sending = refl; empty = λ j h. refl };
  ahead = omega arith;
  given = λ j n g. elim g [ ];
  waiting = λ q e. refl;
  agreed = λ q. refl;
  complete = λ q e. refl;
}

Course-Joint : {now : ℕ} {w : World} → Course now w → Joint w.client w.server
Course-Joint {now} start = inl (0, begin-Runs now, begin-Tied now)
Course-Joint (later c m) = Move-Joint (Course-Joint c) m

-- Whatever happens to the sockets and however often the session is resumed, what the server has
-- taken is a beginning of what the client accepted for sending: nothing is lost between two
-- messages, nothing comes twice and nothing out of order.
pub delivers_in_order :
    (now : ℕ) (w : World)
    → Course now w
    → (rest : List Message) × (w.client.accepted ≡ taken w.server ++ rest)
delivers_in_order now w c = elim (Course-Joint c) [
  | inl (k, r, p) ↦ (p.linked.unread ++ p.unsent, taken-accepted w.client w.server p.linked)
  | inr (o, us, l) ↦ (l.unread ++ us, taken-accepted w.client w.server l)
]

same_socket :
    (i k : ℕ) (s : Session) (v : Server) → Runs i s → Tied i s v → s.current ≡ some k → Tied k s v
same_socket i k s v r p e = let same : i ≡ k = cc r.at in rw (← same) p

all_carried :
    (k : ℕ) (s : Session) (v : Server)
    → Tied k s v
    → is_some s.resuming ≡ false
    → is_live (s.ready k) ≡ true
    → (v.at ≡ k) × (s.accepted ≡ v.before ++ carried k s)
all_carried k s v p r l =
    let at = p.agreed r in (at, rw (← at) (p.linked.sending ∙ rw (p.complete r l, append-nil) refl))

-- While a session is open and not being resumed, its socket neither closing nor closed, everything
-- that the client accepted and the server has not taken before is on the socket from which the server
-- reads: once it has read that, it has taken all.
pub delivers_all :
    (now : ℕ) (w : World) (k : ℕ)
    → Course now w
    → w.client.closed ≡ false
    → w.client.current ≡ some k
    → is_some w.client.resuming ≡ false
    → is_live (w.client.ready k) ≡ true
    → (w.server.at ≡ k) × (w.client.accepted ≡ w.server.before ++ carried k w.client)
delivers_all now w k c o e r l = elim (Course-Joint c) [
  | inr (d, us, l') ↦ absurd (ap_not o d.ended)
  | inl (i, v, p) ↦ all_carried k w.client w.server (same_socket i k w.client w.server v p e) r l
]
