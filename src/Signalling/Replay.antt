-- ===== src/Signalling/Replay.antt =====
-- The log against the whole list of the messages that were ever sent: what a resumed socket
-- replays is exactly what the other side lacks.
use sozvon.Base.{
  ℕ, zero, suc, ◌+◌, ◌-◌, ◌≤◌, ◌≡◌, refl, sym, ap, ◌∙◌, ◌&&◌, List, [], ◌∷◌, ◌++◌, none, some,
  length, length-append, take, drop, take-append-drop, arith, leb, if◌then◌else◌, min, All, ◌*◌,
  All-append, All-append_right,
}
use mathlib.Core.List.{append_assoc, append-nil}
use sozvon.Signalling.{
  Message, SentLog, new, trim, push, too_much, max_messages, after, Argument, whole, below_zero,
  not_integer,
}
use sozvon.Signalling.Kept.{
  IsValid, new-IsValid, push-IsValid, count-trim, trim-IsEnd, total, total-append,
}

unfoldable pub push_all : SentLog → List Message → SentLog
push_all log [] = log
push_all log (s ∷ ss) = push_all (push log s) ss

-- `hist` is all that was sent, `dropped` what is no longer kept.
pub record Holds (log : SentLog) (hist : List Message) : Type 0 where
  pub dropped : List Message
  pub split : hist ≡ dropped ++ log.msgs
  pub counts : log.count ≡ length hist
  pub valid : IsValid log

pub new-Holds : Holds new []
new-Holds = record { dropped = []; split = refl; counts = refl; valid = new-IsValid }

pub push-Holds :
    (log : SentLog) (s : Message) (hist : List Message)
    → Holds log hist
    → Holds (push log s) (hist ++ s ∷ [])
push-Holds log s hist h =
    let (d, p) = trim-IsEnd (log.msgs ++ s ∷ []) (log.bytes + length s) (log.count + 1) in
    record {
      dropped = h.dropped ++ d;
      split =
          unfold push in
          ap (λ (l : List Message). l ++ s ∷ []) h.split
          ∙ append_assoc h.dropped log.msgs (s ∷ [])
          ∙ ap (λ (l : List Message). h.dropped ++ l) p
          ∙ sym (append_assoc h.dropped d _);
      counts =
          unfold push in
          omega (
            arith,
            count-trim (log.msgs ++ s ∷ []) (log.bytes + length s) (log.count + 1),
            length-append hist (s ∷ []),
            h.counts,
          );
      valid = push-IsValid log s h.valid;
    }

push_all-Holds :
    (ss : List Message) (log : SentLog) (hist : List Message)
    → Holds log hist
    → Holds (push_all log ss) (hist ++ ss)
unfolding push_all
push_all-Holds [] log hist h = rw append-nil h
push_all-Holds (s ∷ ss) log hist h =
    rw append_assoc at (push_all-Holds ss (push log s) (hist ++ s ∷ []) (push-Holds log s hist h))

sent-Holds : (hist : List Message) → Holds (push_all new hist) hist
sent-Holds hist = push_all-Holds hist new [] new-Holds

drop-append : (i : ℕ) (d k : List Message) → length d ≤ i → drop i (d ++ k) ≡ drop (i - length d) k
drop-append i [] k h = let e : i - 0 ≡ i = omega arith in rw e
drop-append zero (x ∷ d) k h = elim h [ ]
drop-append (suc i) (x ∷ d) k h =
    let e : suc i - suc (length d) ≡ i - length d = omega arith in
    rw e (drop-append i d k (omega arith))

module _ (log : SentLog) (hist : List Message) (h : Holds log hist) where
  length-hist : length hist ≡ length h.dropped + length log.msgs
  length-hist = ap length h.split ∙ length-append h.dropped log.msgs

  drop-hist : (n : ℕ) → length h.dropped ≤ n → drop n hist ≡ drop (n - length h.dropped) log.msgs
  drop-hist n k = rw h.split (drop-append n h.dropped log.msgs k)

  first_lem : (n : ℕ) → n + 1 - (log.count + 1 - length log.msgs) ≡ n - length h.dropped
  first_lem n = omega (arith, length-hist, h.counts)

  -- `after` answers with what follows the first `n` of all the messages sent, exactly when these
  -- are kept and `n` is no more than was sent.
  pub after-Holds :
      (n : ℕ)
      → after log (whole n) ≡ (
          if leb (length hist) (n + length log.msgs) && leb n (length hist)
          then some (drop n hist)
          else none)
  unfolding after
  after-Holds n = ground (arith, length-hist, drop-hist n, first_lem n, h.counts)

-- A client replays the whole of what the server lacks: whenever `after` answers, its argument is
-- the number of a prefix of all messages sent, and prefix and answer together are all messages.
pub replay_exact :
    (hist : List Message) (a : Argument) (rest : List Message)
    → after (push_all new hist) a ≡ some rest
    → (n : ℕ) × (a ≡ whole n) × (take n hist ++ rest ≡ hist) × (n ≤ length hist)
unfolding after
replay_exact hist not_integer rest e = cc
replay_exact hist (below_zero k) rest e =
    let h = sent-Holds hist in absurd (ground (arith, h.valid.counts))
replay_exact hist (whole n) rest e =
    let a = after-Holds _ hist (sent-Holds hist) n in
    let e' : drop n hist ≡ rest = ground (arith, a) in
    (n, refl, rw (← e') (take-append-drop n hist), ground (arith, a))

abbrev pub IsSmall : Message → Type 0
IsSmall m = length m ≤ 4096

total-le : (ms : List Message) → All IsSmall ms → total ms ≤ 4096 * length ms
total-le [] h = omega arith
total-le (m ∷ ms) h = omega (arith, total-le ms h.1)

trim-keeps :
    (ms : List Message) (bytes count k : ℕ)
    → All IsSmall ms
    → bytes ≡ total ms
    → k ≤ max_messages
    → k ≤ length ms
    → k ≤ length (trim ms bytes count).msgs
unfolding trim too_much
trim-keeps [] bytes count k h e k1 k2 = k2
trim-keeps (m ∷ ms) bytes count k h e k1 k2 =
    ground (arith, total-le ms h.1, h.0, trim-keeps ms (bytes - length m) count k h.1)

push_all-keeps :
    (ss : List Message) (log : SentLog) (n : ℕ)
    → IsValid log
    → All IsSmall log.msgs
    → All IsSmall ss
    → min max_messages n ≤ length log.msgs
    → min max_messages (n + length ss) ≤ length (push_all log ss).msgs
unfolding push_all
push_all-keeps [] log n v hl hs k = omega arith
push_all-keeps (s ∷ ss) log n v hl (h, hs) k =
    let all = All-append IsSmall log.msgs (s ∷ []) hl (h, tt) in
    let (d, p) = trim-IsEnd (log.msgs ++ s ∷ []) (log.bytes + length s) (log.count + 1) in
    let kept : min max_messages (n + 1) ≤ length (push log s).msgs =
      unfold push in
      trim-keeps (log.msgs ++ s ∷ []) (log.bytes + length s) (log.count + 1) _ all
        (omega (arith, v.sized, total-append log.msgs (s ∷ []))) (omega arith)
        (omega (arith, length-append log.msgs (s ∷ []))) in
    omega (
      arith,
      push_all-keeps ss (push log s) (n + 1) (push-IsValid log s v)
          (unfold push in All-append_right IsSmall d _ (rw p at all)) hs kept,
    )

-- With messages of at most 4096 units the last 512 of them can always be replayed.
pub replay_total :
    (hist : List Message) (n : ℕ)
    → All IsSmall hist
    → n ≤ length hist
    → length hist ≤ n + max_messages
    → after (push_all new hist) (whole n) ≡ some (drop n hist)
replay_total hist n small k1 k2 = ground (
  arith,
  after-Holds _ hist (sent-Holds hist) n,
  push_all-keeps hist new 0 new-IsValid tt small (omega arith),
)
