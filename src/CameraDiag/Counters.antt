-- ===== src/CameraDiag/Counters.antt =====
-- What the counters of the sender's side add up to.
use sozvon.Base.{
  ℕ, ◌+◌, Bool, true, false, ◌≡◌, refl, ap, ◌∙◌, sym, Option, none, some, List, [], ◌∷◌,
  if◌then◌else◌, arith,
}
use sozvon.Bitrate.{Value}
use sozvon.CameraDiag.{
  count, Stat, Sender, add, is_source, is_outbound, add_stat, add_stats, sender_stats,
}

-- The sum of two counters, where none is none reported.
abbrev pub both : Option ℕ → Option ℕ → Option ℕ
both none b = b
both (some a) none = some a
both (some a) (some b) = some (a + b)

-- What the statistics that are `chosen` report in `field`, in all.
unfoldable pub total : (Stat → Bool) → (Stat → Value) → List Stat → Option ℕ
total chosen field [] = none
total chosen field (s ∷ stats) =
    let rest = total chosen field stats in if chosen s then both (count (field s)) rest else rest

both-none : (a : Option ℕ) → both a none ≡ a
both-none none = refl
both-none (some a) = refl

plus : Option ℕ → Option ℕ → Option ℕ
plus sum c = elim c [ none ↦ sum | some n ↦ elim sum [ none ↦ some n | some m ↦ some (m + n) ] ]

plus-both : (a c b : Option ℕ) → both (plus a c) b ≡ both a (both c b)
unfolding plus
plus-both a none b = refl
plus-both none (some n) b = refl
plus-both (some m) (some n) none = refl
plus-both (some m) (some n) (some k) = ap some (omega arith)

add-both : (a : Option ℕ) (v : Value) (b : Option ℕ) → both (add a v) b ≡ both a (both (count v) b)
unfolding add plus
add-both a v b = plus-both a (count v) b

-- A counter that is chosen comes before what follows.
chosen-both :
    (chosen : Bool) (a : Option ℕ) (v : Value) (b : Option ℕ)
    → both (if chosen then add a v else a) b ≡ both a (if chosen then both (count v) b else b)
chosen-both true a v b = add-both a v b
chosen-both false a v b = refl

add_stat-source :
    (r : Sender) (s : Stat)
    → (add_stat r s).source ≡ (if is_source s then add r.source s.frames else r.source)
unfolding add_stat
add_stat-source r s = ground arith

add_stat-encoded :
    (r : Sender) (s : Stat)
    → (add_stat r s).encoded ≡ (if is_outbound s then add r.encoded s.frames_encoded else r.encoded)
unfolding add_stat
add_stat-encoded r s = ground arith

add_stat-sent :
    (r : Sender) (s : Stat)
    → (add_stat r s).sent ≡ (if is_outbound s then add r.sent s.packets_sent else r.sent)
unfolding add_stat
add_stat-sent r s = ground arith

source_lem :
    (r : Sender) (stats : List Stat)
    → (add_stats r stats).source ≡ both r.source (total is_source (λ s. s.frames) stats)
unfolding add_stats total
source_lem r [] = sym (both-none r.source)
source_lem r (s ∷ stats) =
    let later = total is_source (λ s. s.frames) stats in
    source_lem (add_stat r s) stats
    ∙ ap (λ x. both x later) (add_stat-source r s)
    ∙ chosen-both (is_source s) r.source s.frames later

encoded_lem :
    (r : Sender) (stats : List Stat)
    → (add_stats r stats).encoded ≡ both r.encoded (total is_outbound (λ s. s.frames_encoded) stats)
unfolding add_stats total
encoded_lem r [] = sym (both-none r.encoded)
encoded_lem r (s ∷ stats) =
    let later = total is_outbound (λ s. s.frames_encoded) stats in
    encoded_lem (add_stat r s) stats
    ∙ ap (λ x. both x later) (add_stat-encoded r s)
    ∙ chosen-both (is_outbound s) r.encoded s.frames_encoded later

sent_lem :
    (r : Sender) (stats : List Stat)
    → (add_stats r stats).sent ≡ both r.sent (total is_outbound (λ s. s.packets_sent) stats)
unfolding add_stats total
sent_lem r [] = sym (both-none r.sent)
sent_lem r (s ∷ stats) =
    let later = total is_outbound (λ s. s.packets_sent) stats in
    sent_lem (add_stat r s) stats
    ∙ ap (λ x. both x later) (add_stat-sent r s)
    ∙ chosen-both (is_outbound s) r.sent s.packets_sent later

-- The frames of the source, the encoded frames and the sent packets are each the sum of what the
-- statistics of video that have them report as a number, and none exactly when none of these does.
pub sender_stats-total :
    (stats : List Stat)
    → ((sender_stats stats).source ≡ total is_source (λ s. s.frames) stats)
      × ((sender_stats stats).encoded ≡ total is_outbound (λ s. s.frames_encoded) stats)
      × ((sender_stats stats).sent ≡ total is_outbound (λ s. s.packets_sent) stats)
unfolding sender_stats
sender_stats-total stats = (source_lem _ stats, encoded_lem _ stats, sent_lem _ stats)
