-- ===== src/Bitrate/Caps/Tightest.antt =====
-- `get` answers with the least of the caps that have not expired.
use sozvon.Base.{
  ℕ, ◌≤◌, ◌≡◌, refl, sym, String, true, false, Option, none, some, [], ◌∷◌, ltb, ltb→lt, lookup,
  arith, ◌⊎◌, inl, inr, Bool-cases, Option-cases,
}
use sozvon.Bitrate.Caps.{Entry, Requests, Caps, expired, least, get, or_empty}

-- No request of `m` that still counts is below `b`.
abbrev pub IsBelow : ℕ → ℕ → Requests → Type 0
IsBelow now b [] = Unit {0}
IsBelow now b ((from, e) ∷ m) = (expired now e ≡ false → b ≤ e.cap) × IsBelow now b m

-- Some request of `m` that still counts is for `b`.
abbrev pub IsAsked : ℕ → ℕ → Requests → Type 0
IsAsked now b [] = ⊥
IsAsked now b ((from, e) ∷ m) = ((expired now e ≡ false) × (e.cap ≡ b)) ⊎ IsAsked now b m

-- None of `m` counts any more.
abbrev pub AreExpired : ℕ → Requests → Type 0
AreExpired now [] = Unit {0}
AreExpired now ((from, e) ∷ m) = (expired now e ≡ true) × AreExpired now m

abbrev pub IsTightest : ℕ → Requests → Option ℕ → Type 0
IsTightest now m none = AreExpired now m
IsTightest now m (some b) = IsBelow now b m × IsAsked now b m

least-some :
    (now best : ℕ) (m : Requests)
    → (b : ℕ) × (least now (some best) m ≡ some b)
      × (b ≤ best)
      × IsBelow now b m
      × ((b ≡ best) ⊎ IsAsked now b m)
unfolding least
least-some now best [] = (best, refl, omega arith, tt, inl refl)
least-some now best ((from, e) ∷ m) = elim (Bool-cases (expired now e)) [
  | inl x ↦
      let (b, q, le, below, ask) = least-some now best m in
      rw (x, least)
        (b, q, le, ((λ h. cc), below), (elim ask [ inl p ↦ inl p | inr p ↦ inr (inr p) ]))
  | inr x ↦ elim (Bool-cases (ltb e.cap best)) [
    | inl lower ↦
        let (b, q, le, below, ask) = least-some now e.cap m in
        let lt = ltb→lt e.cap best lower in
        rw (x, lower, least)
          (
            b,
            q,
            omega arith,
            ((λ h. le), below),
            (elim ask [ inl p ↦ inr (inl (refl, sym p)) | inr p ↦ inr (inr p) ]),
          )
    | inr higher ↦
        let (b, q, le, below, ask) = least-some now best m in
        let ge : best ≤ e.cap = ground arith in
        rw (x, higher, least)
          (
            b,
            q,
            le,
            ((λ h. omega arith), below),
            (elim ask [ inl p ↦ inl p | inr p ↦ inr (inr p) ]),
          )
  ]
]

IsTightest-skip :
    (now : ℕ) (from : String) (e : Entry) (m : Requests) (r : Option ℕ)
    → expired now e ≡ true
    → IsTightest now m r
    → IsTightest now ((from, e) ∷ m) r
IsTightest-skip now from e m none x h = (x, h)
IsTightest-skip now from e m (some b) x h = (((λ k. cc), h.0), inr h.1)

pub least-IsTightest : (now : ℕ) (m : Requests) → IsTightest now m (least now none m)
unfolding least
least-IsTightest now [] = tt
least-IsTightest now ((from, e) ∷ m) = elim (Bool-cases (expired now e)) [
  | inl x ↦
      rw (x, least) (IsTightest-skip now from e m (least now none m) x (least-IsTightest now m))
  | inr x ↦
      let (b, q, le, below, ask) = least-some now e.cap m in
      rw (x, q, least) (((λ h. le), below), elim ask [ inl p ↦ inl (x, sym p) | inr p ↦ inr p ])
]

-- What `get` answers is the least of the caps asked for the stream that have not expired, and
-- `null` exactly when there is none.
pub get-IsTightest :
    (stream : String) (now : ℕ) (c : Caps)
    → IsTightest now (or_empty (lookup stream c)) (get stream now c).1
unfolding get or_empty
get-IsTightest stream now c = elim (Option-cases (lookup stream c)) [
  | inl e ↦ rw (e, or_empty, get) tt
  | inr (m, e) ↦ rw (e, or_empty, get) (least-IsTightest now m)
]
