-- ===== src/E2ee/Chat/Order.antt =====
-- The order of chat messages: what the server replays, reorders or sends back is not let in, what
-- it withholds is counted, and a message that is passed on as it was sent is read as it was
-- written.
use sozvon.Base.{
  ℕ, ◌+◌, ◌-◌, ◌≤◌, ◌<◌, ◌≡◌, refl, String, not, ◌||◌, Option, none, some, List, [], ◌∷◌, get_elem?,
  arith, inl, inr, ◌⊎◌, Bool-cases, Option-cases, if_intro, ◌∙◌, ◌==◌, eq_refl,
}
use mathlib.Core.Path.{subst}
use sozvon.E2ee.{Bytes, established, E2ee}
use sozvon.E2ee.Policy.{is_peer}
use sozvon.E2ee.Chat.{
  Cipher, Binding, ChatPayload, Delivered, Opening, Sealing, seq_limit, start_send, finish_send,
  start_receive_with, start_receive, finish_receive, receive, receive_all, is_established, or_empty,
}

-- What has been delivered, message by message: each stands in `sent` at the number that the ones
-- before it and the `missed` counts lead to.
abbrev pub Selected : List (String × Bytes) → ℕ → List Delivered → Type 0
Selected sent i [] = Unit {0}
Selected sent i (d ∷ ds) =
    (get_elem? sent (i + d.missed) ≡ some (d.kind, d.text)) × Selected sent (i + d.missed + 1) ds

-- Under `key` nothing opens but what the peer sealed for us, with its number and kind: `sent` is
-- the list of its messages.
abbrev pub IsAuthentic : Cipher → Bytes → List (String × Bytes) → Type 0
IsAuthentic c key sent =
    (x : Bytes × Bytes) (b : Binding) (t : Bytes)
    → c.unseal key x b ≡ some t
    → get_elem? sent b.seq ≡ some (b.kind, t)

module _ (c : Cipher) (sent : List (String × Bytes)) (from : String) where
  start_receive_with-lem :
      (kind : String) (k iv ct : Option Bytes) (seq : Option ℕ) (s : E2ee) (x : Opening) (t : Bytes)
      → ((key : Bytes) → k ≡ some key → IsAuthentic c key sent)
      → start_receive_with c from kind k iv ct seq s ≡ some x
      → x.opened ≡ some t
      → (get_elem? sent x.seq ≡ some (x.kind, t)) × (s.recv_next ≤ x.seq)
  unfolding start_receive_with
  start_receive_with-lem kind (some key) (some iv) (some ct) (some seq) s x t auth e o = ground (
    arith,
    auth key refl (iv, ct) (record { sender = from; recipient = s.id; seq = seq; kind = kind }) t,
  )
  start_receive_with-lem kind none iv ct seq s x t auth e o = cc
  start_receive_with-lem kind (some key) none ct seq s x t auth e o = cc
  start_receive_with-lem kind (some key) (some iv) none seq s x t auth e o = cc
  start_receive_with-lem kind (some key) (some iv) (some ct) none s x t auth e o = cc

  start_receive-lem :
      (p : ChatPayload) (s : E2ee) (x : Opening) (t : Bytes)
      → ((key : Bytes) → s.recv_key ≡ some key → IsAuthentic c key sent)
      → start_receive c from p s ≡ some x
      → x.opened ≡ some t
      → (get_elem? sent x.seq ≡ some (x.kind, t)) × (s.recv_next ≤ x.seq)
  unfolding start_receive
  start_receive-lem p s x t auth e o =
      elim (Bool-cases (not (is_established s.state) || not (is_peer from s.peer))) [
        | inl h ↦ absurd (ground arith)
        | inr h ↦
            start_receive_with-lem (or_empty p.kind) s.recv_key p.iv p.ct p.seq s x t auth
              (ground arith) o
      ]

  -- What a reception does to the number expected next, and what it lets in.
  abbrev Outcome : E2ee → E2ee × Option Delivered → Type 0
  Outcome s r =
      ((r.1 ≡ none) × (r.0.recv_next ≡ s.recv_next))
      ⊎ ((d : Delivered) × (r.1 ≡ some d)
          × (r.0.recv_next ≡ s.recv_next + d.missed + 1)
          × (get_elem? sent (s.recv_next + d.missed) ≡ some (d.kind, d.text)))

  finish_receive-Outcome :
      (x : Opening) (s : E2ee)
      → ((t : Bytes)
          → x.opened ≡ some t
          → (get_elem? sent x.seq ≡ some (x.kind, t)) × (s.recv_next ≤ x.seq))
      → Outcome s (finish_receive x s)
  unfolding finish_receive
  finish_receive-Outcome x s h = elim (Option-cases x.opened) [
    | inl o ↦ rw (o, finish_receive) (inl (refl, refl))
    | inr (t, o) ↦
        let (found, later) = h t o in
        let e : s.recv_next + (x.seq - s.recv_next) ≡ x.seq = omega arith in
        rw (o, finish_receive)
          (if_intro (Outcome s) (not (x.gen == s.generation)) (inl (refl, refl)) (
            inr (
              record { kind = x.kind; text = t; missed = x.seq - s.recv_next },
              refl,
              omega arith,
              rw e found,
            )))
  ]

  receive-Outcome :
      (p : ChatPayload) (s : E2ee)
      → ((key : Bytes) → s.recv_key ≡ some key → IsAuthentic c key sent)
      → Outcome s (receive c from p s)
  unfolding receive
  receive-Outcome p s auth = elim (Option-cases (start_receive c from p s)) [
    | inl e ↦ rw (e, receive) (inl (refl, refl))
    | inr (x, e) ↦
        rw (e, receive) (finish_receive-Outcome x s (λ t o. start_receive-lem p s x t auth e o))
  ]

  receive-key : (p : ChatPayload) (s : E2ee) → (receive c from p s).0.recv_key ≡ s.recv_key
  unfolding receive
  receive-key p s = ground arith

module _ (c : Cipher) (sent : List (String × Bytes)) (key : Bytes) where
  -- Whatever the server passes on, in whatever order and however often: the messages let in are
  -- messages that the peer wrote, each at most once and in the order in which it wrote them, and
  -- `missed` is exactly how many it wrote in between; given that what opens under the session's key
  -- is what the peer wrote.
  pub receive_all-Selected :
      (ps : List (String × ChatPayload)) (s : E2ee)
      → IsAuthentic c key sent
      → s.recv_key ≡ some key
      → Selected sent s.recv_next (receive_all c ps s).1
  unfolding receive_all
  receive_all-Selected [] s auth k = tt
  receive_all-Selected ((from, p) ∷ ps) s auth k =
      let k' : (receive c from p s).0.recv_key ≡ some key = receive-key c sent from p s ∙ k in
      let rest = receive_all-Selected ps (receive c from p s).0 auth k' in
      elim (receive-Outcome c sent from p s
        (λ other e. let q : key ≡ other = cc in subst (λ z. IsAuthentic c z sent) q auth)) [
          | inl (n, e) ↦ rw (n, receive_all) (rw e at rest)
          | inr (d, n, e, found) ↦ rw (n, receive_all) (found, rw e at rest)
        ]

-- Two ends of one session: what `a` sends with, `b` receives with, and nothing is under way.
pub record ArePaired (a b : E2ee) : Type 0 where
  pub a_established : a.state ≡ established
  pub b_established : b.state ≡ established
  pub keys : (k : Bytes) × (a.send_key ≡ some k) × (b.recv_key ≡ some k)
  pub a_peer : a.peer ≡ some b.id
  pub b_peer : b.peer ≡ some a.id
  pub seqs : a.send_seq ≡ b.recv_next
  pub room : a.send_seq < seq_limit

-- Between two ends of one session a message that is passed on as it was sent is read as it was
-- written, with nothing missed, and the two ends stay in step, if the cipher opens what it sealed.
pub send_receive :
    (c : Cipher) (nonce : ℕ) (kind : String) (text : Bytes) (a b : E2ee)
    → ((k : Bytes) (n : ℕ) (t : Bytes) (x : Binding) → c.unseal k (c.seal k n t x) x ≡ some t)
    → ArePaired a b
    → (x : Sealing) × (p : ChatPayload) × (start_send c a.generation nonce kind text a ≡ some x)
      × ((finish_send x a).1 ≡ some (b.id, p))
      × ((receive c a.id p b).1 ≡ some (record { kind = kind; text = text; missed = 0 }))
      × ((finish_send x a).0.send_seq ≡ (receive c a.id p b).0.recv_next)
unfolding start_send finish_send receive
send_receive c nonce kind text a b law h = (
  x,
  p,
  ground (arith, h.a_peer, h.a_established, h.keys),
  ground (arith, h.a_peer, h.a_established, h.keys),
  ground (arith, eq_refl a.id, law key nonce text bind, h),
  ground (arith, eq_refl a.id, law key nonce text bind, h),
)
  where
    key : Bytes
    key = h.keys.0

    bind : Binding
    bind = record { sender = a.id; recipient = b.id; seq = a.send_seq; kind = kind }

    x : Sealing
    x = record {
      gen = a.generation;
      peer = b.id;
      seq = a.send_seq;
      kind = kind;
      sealed = c.seal key nonce text bind;
    }

    p : ChatPayload
    p = record {
      kind = some kind;
      seq = some a.send_seq;
      iv = some (c.seal key nonce text bind).0;
      ct = some (c.seal key nonce text bind).1;
    }
