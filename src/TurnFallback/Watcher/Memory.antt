-- ===== src/TurnFallback/Watcher/Memory.antt =====
-- What the watcher remembers of a connection, described by the polls alone.
use mathlib.Core.Path.{subst}
use sozvon.Base.{
  ℕ, ◌+◌, ◌≤◌, ◌≡◌, ◌≢◌, refl, sym, ap, ◌⊎◌, inl, inr, String, true, false, Option, none, some,
  List, [], ◌∷◌, ◌++◌, arith, Bool-cases, Option-cases, if◌then◌else◌, lookup, length, All,
}
use sozvon.TurnFallback.Watcher.{
  CandidatePath, Poll, Stream, Ice, is_up, is_down, connected, completed, disconnected, failed,
  other, next_path, next_since, is_lossy, stream_of,
}
use sozvon.TurnFallback.Watcher.History.{Event, run, polls, summary, stream_of-run}

abbrev pub Polls : Type 0
Polls = List (Poll × ℕ)

-- A poll that shows no path while up.
abbrev pub IsPathless : Poll × ℕ → Type 0
IsPathless x = (x.0.path ≡ none) ⊎ (is_up x.0.ice ≡ false)

-- The path of the newest poll that shows one while up; the newest poll stands first.
abbrev pub IsLastPath : Polls → Option CandidatePath → Type 0
IsLastPath l none = All IsPathless l
IsLastPath l (some p) =
    (newer : Polls) × (x : Poll × ℕ) × (older : Polls) × (l ≡ newer ++ x ∷ older)
    × All IsPathless newer
    × (x.0.path ≡ some p)
    × (is_up x.0.ice ≡ true)

abbrev pub IsDown : Poll × ℕ → Type 0
IsDown x = x.0.ice ≡ disconnected

abbrev pub NoneDown : Polls → Type 0
NoneDown [] = Unit {0}
NoneDown (x ∷ l) = x.0.ice ≢ disconnected

-- When the newest unbroken run of `disconnected` began, if there is one.
abbrev pub IsDownSince : Polls → Option ℕ → Type 0
IsDownSince l none = NoneDown l
IsDownSince l (some t) =
    (newer : Polls) × (o : Poll) × (older : Polls) × (l ≡ newer ++ (o, t) ∷ older)
    × All IsDown newer
    × (o.ice ≡ disconnected)
    × NoneDown older

-- A loss of 15% or more while up.
abbrev pub IsLossy : Poll × ℕ → Type 0
IsLossy x = (k : ℕ) × (x.0.loss ≡ some k) × (150000 ≤ k) × (is_up x.0.ice ≡ true)

abbrev pub NotLossy : Polls → Type 0
NotLossy [] = Unit {0}
NotLossy (x ∷ l) = ¬ IsLossy x

-- How many of the newest polls are lossy, without a gap.
abbrev pub IsStreak : Polls → ℕ → Type 0
IsStreak l n =
    (newer older : Polls) × (l ≡ newer ++ older)
    × (length newer ≡ n)
    × All IsLossy newer
    × NotLossy older

pub record IsMemory (l : Polls) (s : Stream) : Type 0 where
  pub path_last : IsLastPath l s.path
  pub down_from : IsDownSince l s.disconnected_since
  pub lossy_for : IsStreak l s.loss_polls

path_kept :
    (x : Poll × ℕ) (l : Polls) (p : Option CandidatePath)
    → IsPathless x
    → IsLastPath l p
    → IsLastPath (x ∷ l) p
path_kept x l none q h = (q, h)
path_kept x l (some p) q (newer, y, older, e, all, r, u) =
    (x ∷ newer, y, older, ap (λ (m : Polls). x ∷ m) e, (q, all), r, u)

later_path :
    (o : Poll) (now : ℕ) (l : Polls) (p : Option CandidatePath)
    → IsLastPath l p
    → IsLastPath ((o, now) ∷ l) (next_path o p)
later_path o now l p h = elim (Option-cases o.path) [
  | inl e ↦
      let same : next_path o p ≡ p = ground arith in
      subst (IsLastPath ((o, now) ∷ l)) (sym same) (path_kept (o, now) l p (inl e) h)
  | inr (q, e) ↦ elim (Bool-cases (is_up o.ice)) [
    | inl u ↦
        let taken : next_path o p ≡ some q = ground arith in
        subst (IsLastPath ((o, now) ∷ l)) (sym taken) ([], (o, now), l, refl, tt, e, u)
    | inr u ↦
        let same : next_path o p ≡ p = ground arith in
        subst (IsLastPath ((o, now) ∷ l)) (sym same) (path_kept (o, now) l p (inr u) h)
  ]
]

is_down_iff :
    (i : Ice) → (is_down i ≡ true → i ≡ disconnected) × (is_down i ≡ false → i ≢ disconnected)
is_down_iff connected = ((λ e. cc), λ e q. cc)
is_down_iff completed = ((λ e. cc), λ e q. cc)
is_down_iff disconnected = ((λ e. refl), λ e q. cc)
is_down_iff failed = ((λ e. cc), λ e q. cc)
is_down_iff other = ((λ e. cc), λ e q. cc)

later_since :
    (o : Poll) (now : ℕ) (l : Polls) (s : Option ℕ)
    → IsDownSince l s
    → IsDownSince ((o, now) ∷ l) (next_since o now s)
later_since o now l s h = elim (Bool-cases (is_down o.ice)) [
  | inl e ↦
      subst (IsDownSince ((o, now) ∷ l)) (sym (went_down s e)) (downs s h ((is_down_iff o.ice).0 e))
  | inr e ↦ subst (IsDownSince ((o, now) ∷ l)) (sym (came_up s e)) ((is_down_iff o.ice).1 e)
]
  where
    or_now : Option ℕ → ℕ
    or_now none = now
    or_now (some t) = t

    went_down : (s : Option ℕ) → is_down o.ice ≡ true → next_since o now s ≡ some (or_now s)
    went_down none e = ground arith
    went_down (some t) e = ground arith

    came_up : (s : Option ℕ) → is_down o.ice ≡ false → next_since o now s ≡ none
    came_up s e = ground arith

    downs :
        (s : Option ℕ)
        → IsDownSince l s
        → o.ice ≡ disconnected
        → IsDownSince ((o, now) ∷ l) (some (or_now s))
    downs none h d = ([], o, l, refl, tt, d, h)
    downs (some t) (newer, x, older, e, all, r, u) d =
        ((o, now) ∷ newer, x, older, ap (λ (m : Polls). (o, now) ∷ m) e, (d, all), r, u)

is_lossy_iff :
    (x : Poll × ℕ) → (is_lossy x.0 ≡ true → IsLossy x) × (is_lossy x.0 ≡ false → ¬ IsLossy x)
is_lossy_iff x = elim (Option-cases x.0.loss) [
  | inl e ↦ ((λ h. ground arith), λ h (k, f, r, u). cc)
  | inr (k, e) ↦ ((λ h. (k, e, ground arith, ground arith)), λ h (m, f, g, u). ground arith)
]

longer_lossy :
    (o : Poll) (now : ℕ) (l : Polls) (n : ℕ)
    → IsStreak l n
    → IsStreak ((o, now) ∷ l) (if is_lossy o then n + 1 else 0)
longer_lossy o now l n (newer, older, e, m, all, r) = elim (Bool-cases (is_lossy o)) [
  | inl h ↦ subst (IsStreak ((o, now) ∷ l)) (sym (ap (λ b. if b then n + 1 else 0) h)) (
    (o, now) ∷ newer,
    older,
    ap (λ (y : Polls). (o, now) ∷ y) e,
    omega (arith, m),
    ((is_lossy_iff (o, now)).0 h, all),
    r,
  )
  | inr h ↦
      subst (IsStreak ((o, now) ∷ l)) (sym (ap (λ b. if b then n + 1 else 0) h))
        ([], (o, now) ∷ l, refl, refl, tt, (is_lossy_iff (o, now)).1 h)
]

summary-IsMemory : (l : Polls) → IsMemory l (summary l)
summary-IsMemory [] = record {
  path_last = tt;
  down_from = tt;
  lossy_for = ([], [], refl, refl, tt, tt);
}
summary-IsMemory ((o, now) ∷ l) =
    let m = summary-IsMemory l in
    record {
      path_last = later_path o now l _ m.path_last;
      down_from = later_since o now l _ m.down_from;
      lossy_for = longer_lossy o now l _ m.lossy_for;
    }

-- After any polls and forgetting of any connections, what the watcher remembers of one is read off its
-- own polls since it was last forgotten: the path of the newest one that shows a path while up, the
-- time of the first poll of the newest run of `disconnected`, and the number of newest polls that in a
-- row found a loss of 15% or more while up.
pub stream_of-IsMemory :
    (id : String) (xs : List Event) → IsMemory (polls id xs) (stream_of (lookup id (run xs)))
stream_of-IsMemory id xs = rw (stream_of-run id xs) (summary-IsMemory (polls id xs))
