-- ===== src/TurnFallback/Watcher/History.antt =====
-- The watcher against the polls it was fed: what it remembers of a connection is a summary of the
-- polls of that connection, and a reason to give UDP up is borne out by them.
use sozvon.Base.{
  ℕ, zero, suc, ◌+◌, ◌≤◌, ◌≡◌, refl, sym, ap, ◌∙◌, ◌⊎◌, inl, inr, String, true, false, Option, none,
  some, List, [], ◌∷◌, arith, Bool-cases, if◌then◌else◌, lookup, lookup-insert, lookup-erase,
  str_eq, eq_iff,
}
use sozvon.TurnFallback.Watcher.{
  CandidatePath, Poll, Stream, Ice, Reason, by_failed, by_disconnected, by_loss, is_up, is_down,
  has_failed, connected, completed, disconnected, failed, other, next_path, next_since, is_lossy,
  on_udp, note, judge, Watcher, stream_of, update, forget, is_past,
}

pub data Event : Type 0 where
  polled : String → Poll → ℕ → Event
  forgotten : String → Event

unfoldable pub step : Event → Watcher → Watcher
unfolding update forget
step (polled id o now) w = (update id o now w).0
step (forgotten id) w = forget id w

-- The newest event stands first.
unfoldable pub run : List Event → Watcher
unfolding step
run [] = []
run (x ∷ xs) = step x (run xs)

-- The polls of one connection since it was last forgotten, with their times.
unfoldable pub polls : String → List Event → List (Poll × ℕ)
polls id [] = []
polls id (polled j o now ∷ xs) =
    let rest = polls id xs in if str_eq j id then (o, now) ∷ rest else rest
polls id (forgotten j ∷ xs) = let rest = polls id xs in if str_eq j id then [] else rest

-- The path of the newest poll that has one and found the connection up.
abbrev pub last_path : List (Poll × ℕ) → Option CandidatePath
last_path [] = none
last_path ((o, now) ∷ l) = next_path o (last_path l)

-- How many of the newest polls are lossy, without a gap.
abbrev pub lossy_streak : List (Poll × ℕ) → ℕ
lossy_streak [] = 0
lossy_streak ((o, now) ∷ l) = if is_lossy o then lossy_streak l + 1 else 0

-- When the newest unbroken run of `disconnected` began.
abbrev pub down_since : List (Poll × ℕ) → Option ℕ
down_since [] = none
down_since ((o, now) ∷ l) = next_since o now (down_since l)

abbrev pub summary : List (Poll × ℕ) → Stream
summary l = record {
  path = last_path l;
  disconnected_since = down_since l;
  loss_polls = lossy_streak l;
}

note-summary :
    (o : Poll) (now : ℕ) (l : List (Poll × ℕ)) → note o now (summary l) ≡ summary ((o, now) ∷ l)
unfolding note
note-summary o now l = refl

-- What the watcher remembers of a connection is the summary of its polls since it was last
-- forgotten, whatever the other connections did.
pub stream_of-run :
    (id : String) (xs : List Event) → stream_of (lookup id (run xs)) ≡ summary (polls id xs)
unfolding run step update forget polls
stream_of-run id [] = unfold lookup stream_of in refl
stream_of-run id (polled j o now ∷ xs) = elim (Bool-cases (str_eq j id)) [
  | inl e ↦
      let p : j ≡ id = (eq_iff j id).0 e in
      rw (lookup-insert, e, stream_of)
        (ap (note o now) (ap (λ k. stream_of (lookup k (run xs))) p ∙ stream_of-run id xs)
          ∙ note-summary o now (polls id xs))
  | inr e ↦ rw (lookup-insert, e) (stream_of-run id xs)
]
stream_of-run id (forgotten j ∷ xs) = elim (Bool-cases (str_eq j id)) [
  | inl e ↦ rw (lookup-erase, e, stream_of) refl
  | inr e ↦ rw (lookup-erase, e) (stream_of-run id xs)
]

-- The first `n` polls of the list are lossy.
abbrev pub AreLossy : ℕ → List (Poll × ℕ) → Type 0
AreLossy zero l = Unit
AreLossy (suc n) [] = ⊥
AreLossy (suc n) ((o, now) ∷ l) = (is_lossy o ≡ true) × AreLossy n l

-- The newest polls are all `disconnected`, back to one at the time `t`.
abbrev pub IsDownFrom : ℕ → List (Poll × ℕ) → Type 0
IsDownFrom t [] = ⊥
IsDownFrom t ((o, now) ∷ l) = (is_down o.ice ≡ true) × ((now ≡ t) ⊎ IsDownFrom t l)

lossy_streak-AreLossy : (n : ℕ) (l : List (Poll × ℕ)) → n ≤ lossy_streak l → AreLossy n l
lossy_streak-AreLossy zero l h = tt
lossy_streak-AreLossy (suc n) [] h = omega (arith, h)
lossy_streak-AreLossy (suc n) ((o, now) ∷ l) h =
    (ground arith, lossy_streak-AreLossy n l (ground arith))

next_since-some :
    (o : Poll) (now t : ℕ) (old : Option ℕ)
    → next_since o now old ≡ some t
    → (is_down o.ice ≡ true) × (((old ≡ none) × (now ≡ t)) ⊎ (old ≡ some t))
next_since-some o now t none e = ground arith
next_since-some o now t (some u) e = ground arith

down_since-IsDownFrom : (t : ℕ) (l : List (Poll × ℕ)) → down_since l ≡ some t → IsDownFrom t l
down_since-IsDownFrom t [] e = absurd (cc)
down_since-IsDownFrom t ((o, now) ∷ l) e =
    let (d, c) = next_since-some o now t (down_since l) e in
    (d, elim c [ inl p ↦ inl p.1 | inr p ↦ inr (down_since-IsDownFrom t l p) ])

abbrev pub HasJustFailed : List (Poll × ℕ) → Type 0
HasJustFailed [] = ⊥
HasJustFailed ((o, now) ∷ l) = o.ice ≡ failed

-- What bears a reason out.
abbrev pub IsBorneOut : ℕ → List (Poll × ℕ) → Reason → Type 0
IsBorneOut now l by_failed = HasJustFailed l
IsBorneOut now l by_disconnected = (t : ℕ) × (t + 6000 ≤ now) × IsDownFrom t l
IsBorneOut now l by_loss = AreLossy 5 l

has_failed-failed : (i : Ice) → has_failed i ≡ true → i ≡ failed
has_failed-failed failed e = refl
has_failed-failed connected e = cc
has_failed-failed completed e = cc
has_failed-failed disconnected e = cc
has_failed-failed other e = cc

is_past-some :
    (now : ℕ) (o : Option ℕ) → is_past now o ≡ true → (t : ℕ) × (o ≡ some t) × (t + 6000 ≤ now)
is_past-some now none e = cc
is_past-some now (some t) e = (t, refl, ground arith)

judge-IsBorneOut :
    (o : Poll) (now : ℕ) (l : List (Poll × ℕ)) (r : Reason)
    → judge o now (summary ((o, now) ∷ l)) ≡ some r
    → (on_udp (last_path ((o, now) ∷ l)) ≡ true) × IsBorneOut now ((o, now) ∷ l) r
unfolding judge
judge-IsBorneOut o now l by_failed e = (ground arith, has_failed-failed o.ice (ground arith))
judge-IsBorneOut o now l by_disconnected e =
    let (t, p, q) = is_past-some now (down_since ((o, now) ∷ l)) (ground arith) in
    (ground arith, (t, q, down_since-IsDownFrom t ((o, now) ∷ l) p))
judge-IsBorneOut o now l by_loss e =
    (ground arith, lossy_streak-AreLossy 5 ((o, now) ∷ l) (ground arith))

up_alive : (i : Ice) → is_up i ≡ true → (is_down i ≡ false) × (has_failed i ≡ false)
up_alive failed e = cc
up_alive connected e = (refl, refl)
up_alive completed e = (refl, refl)
up_alive disconnected e = cc
up_alive other e = cc

lossy-up : (o : Poll) → is_lossy o ≡ true → (is_down o.ice ≡ false) × (has_failed o.ice ≡ false)
lossy-up o e = up_alive o.ice (ground arith)

judge-lossy :
    (o : Poll) (now : ℕ) (l : List (Poll × ℕ))
    → on_udp (last_path ((o, now) ∷ l)) ≡ true
    → 5 ≤ lossy_streak ((o, now) ∷ l)
    → judge o now (summary ((o, now) ∷ l)) ≡ some by_loss
unfolding judge
judge-lossy o now l u h =
    let y : is_lossy o ≡ true = ground arith in let (d, f) = lossy-up o y in ground arith

-- UDP is given up for a connection only if the last path it was up on is over UDP, and if it has
-- just failed, or has been `disconnected` without a break for 6 seconds, or its last 5 polls all
-- found a loss of 15% or more.
pub update-IsBorneOut :
    (id : String) (o : Poll) (now : ℕ) (xs : List Event) (r : Reason)
    → (update id o now (run xs)).1 ≡ some r
    → (on_udp (last_path ((o, now) ∷ polls id xs)) ≡ true)
      × IsBorneOut now ((o, now) ∷ polls id xs) r
unfolding update
update-IsBorneOut id o now xs r e = judge-IsBorneOut o now (polls id xs) r (
    ap (judge o now)
      (sym (ap (note o now) (stream_of-run id xs) ∙ note-summary o now (polls id xs)))
    ∙ e)

-- 5 lossy polls in a row or more, with the last path while up over UDP, do give it up for loss.
pub update-lossy :
    (id : String) (o : Poll) (now : ℕ) (xs : List Event)
    → on_udp (last_path ((o, now) ∷ polls id xs)) ≡ true
    → 5 ≤ lossy_streak ((o, now) ∷ polls id xs)
    → (update id o now (run xs)).1 ≡ some by_loss
unfolding update judge
update-lossy id o now xs u h =
    let e = ap (note o now) (stream_of-run id xs) ∙ note-summary o now (polls id xs) in
    ap (judge o now) e ∙ judge-lossy o now (polls id xs) u h
