-- ===== src/Signalling/Kept.antt =====
-- What the log of sent messages keeps: its invariant, and which messages `trim` drops.
use sozvon.Base.{
  ℕ, ◌+◌, ◌-◌, ◌≤◌, ◌≡◌, refl, ◌⊎◌, inl, inr, List, [], ◌∷◌, ◌++◌, length, length-append, arith,
  Bool-cases,
}
use sozvon.Signalling.{Message, SentLog, new, too_much, trim, push, max_messages, max_bytes}

-- The sizes of the messages, together.
abbrev pub total : List Message → ℕ
total [] = 0
total (m ∷ ms) = length m + total ms

pub total-append : (xs ys : List Message) → total (xs ++ ys) ≡ total xs + total ys
total-append [] ys = omega arith
total-append (x ∷ xs) ys = omega (arith, total-append xs ys)

pub record IsValid (log : SentLog) : Type 0 where
  pub sized : log.bytes ≡ total log.msgs
  pub few : length log.msgs ≤ max_messages
  pub small : (length log.msgs ≤ 1) ⊎ (log.bytes ≤ max_bytes)
  pub counts : length log.msgs ≤ log.count

pub new-IsValid : IsValid new
new-IsValid = record {
  sized = refl;
  few = omega arith;
  small = inl (omega arith);
  counts = omega arith;
}

trim-IsValid :
    (ms : List Message) (bytes count : ℕ)
    → bytes ≡ total ms
    → length ms ≤ count
    → IsValid (trim ms bytes count)
unfolding trim too_much
trim-IsValid [] bytes count e h = record {
  sized = e;
  few = omega arith;
  small = inl (omega arith);
  counts = omega arith;
}
trim-IsValid (m ∷ ms) bytes count e h = ground (arith, trim-IsValid ms (bytes - length m) count)

-- Each message pushed keeps the log valid: the size recorded is that of the messages kept, they are
-- at most 512, and at most 2 MB unless there is only one, and no more than were counted.
pub push-IsValid : (log : SentLog) (s : Message) → IsValid log → IsValid (push log s)
unfolding push
push-IsValid log s v =
    trim-IsValid (log.msgs ++ s ∷ []) _ _ (omega (arith, v.sized, total-append log.msgs (s ∷ [])))
      (omega (arith, v.counts, length-append log.msgs (s ∷ [])))

pub count-trim : (ms : List Message) (bytes count : ℕ) → (trim ms bytes count).count ≡ count
unfolding trim
count-trim [] bytes count = refl
count-trim (m ∷ ms) bytes count = ground (arith, count-trim ms (bytes - length m) count)

-- `trim` keeps an end of the list, and never drops the last message.
abbrev pub IsEnd : List Message → List Message → Type 0
IsEnd all kept = (dropped : List Message) × (all ≡ dropped ++ kept)

pub trim-IsEnd : (ms : List Message) (bytes count : ℕ) → IsEnd ms (trim ms bytes count).msgs
unfolding trim
trim-IsEnd [] bytes count = ([], refl)
trim-IsEnd (m ∷ ms) bytes count = elim (Bool-cases (too_much (m ∷ ms) bytes)) [
  | inl e ↦
      let (d, p) = trim-IsEnd ms (bytes - length m) count in rw (e, trim) (m ∷ d, rw (← p) refl)
  | inr e ↦ rw (e, trim) ([], refl)
]

trim-nonempty :
    (ms : List Message) (bytes count : ℕ) → 1 ≤ length ms → 1 ≤ length (trim ms bytes count).msgs
unfolding trim too_much
trim-nonempty [] bytes count h = h
trim-nonempty (m ∷ ms) bytes count h = ground (arith, trim-nonempty ms (bytes - length m) count)
