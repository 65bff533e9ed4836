-- ===== src/Transfer/Idle.antt =====
-- A closed transfer in the dictionary stays there, whatever happens but a cancel message for it.
use sozvon.Base.{
  ℕ, ◌≡◌, refl, ap, ◌∙◌, String, true, false, Option, none, some, List, arith, lookup, insert,
  lookup-insert, lookup-erase, eq_iff, str_eq, Bool, not, [], ◌∷◌, All, Bool-cases, Option-cases,
  inl, inr, sym, erase, insert, any, ◌||◌, ◌&&◌, ◌++◌, if◌then◌else◌,
}
use sozvon.Transfer.Object.{closed, Transfer, make, event, close, cancel, fail, is_closed}
use sozvon.Transfer.Data.{answer, receive_file}
use sozvon.Transfer.Dictionary.{
  Files, Handler, cancels, accepts, throws, handled, enter, on_invite, fullid, speaks_one, act,
  on_offer, on_answer, on_cancel, on_obsolete, on_ice, send_file, user_left, user_left_from,
}
use sozvon.Transfer.Course.{
  Event, invites, offers, answers, cancels_it, obsolete, app_cancels, candidate, sends, leaves,
  apply, run,
}

-- Neither a cancel message under `key`, nor a file sent under it: a file's id is new.
abbrev pub spares : String → Event → Bool
spares key (cancels_it u i) = not (str_eq (fullid u i) key)
spares key (sends users h u i size) = not (str_eq (fullid u i) key)
spares key _ = true

-- A closed transfer that receives and has no connection.
abbrev pub IsIdle : Transfer → Type 0
IsIdle f = (f.state ≡ closed) × (f.up ≡ false) × (f.pc ≡ false)

abbrev pub IsStuck : String → Files → Type 0
IsStuck key files = (f : Transfer) × (lookup key files.transfers ≡ some f) × IsIdle f

put-IsStuck :
    (key k : String) (f : Transfer) (files : Files)
    → (str_eq k key ≡ true → IsIdle f)
    → IsStuck key files
    → IsStuck key (record files { transfers = insert k f files.transfers })
put-IsStuck key k f files idle (g, found, rest) = elim (Bool-cases (str_eq k key)) [
  | inl e ↦ (f, lookup-insert k key f files.transfers ∙ rw e refl, idle e)
  | inr e ↦ (g, lookup-insert k key f files.transfers ∙ rw e found, rest)
]

drop-IsStuck :
    (key k : String) (files : Files)
    → str_eq k key ≡ false
    → IsStuck key files
    → IsStuck key (record files { transfers = erase k files.transfers })
drop-IsStuck key k files e (g, found, rest) =
    (g, lookup-erase k key files.transfers ∙ rw e found, rest)

act-missing :
    (k : String) (method : Transfer → Transfer) (files : Files)
    → lookup k files.transfers ≡ none
    → act k method files ≡ files
unfolding act
act-missing k method files q = ground arith

act-found :
    (k : String) (method : Transfer → Transfer) (files : Files) (f : Transfer)
    → lookup k files.transfers ≡ some f
    → act k method files ≡ (
        if is_closed (method f).state && not (is_closed f.state)
        then record files { transfers = erase k files.transfers }
        else record files { transfers = insert k (method f) files.transfers })
unfolding act
act-found k method files f q = ground arith

-- A method that leaves what is idle so takes nothing idle out.
module _ (key k : String) (method : Transfer → Transfer) (files : Files)
    (keeps : (f : Transfer) → IsIdle f → IsIdle (method f)) (stuck : IsStuck key files) where
  found_here : (f : Transfer) → lookup k files.transfers ≡ some f → str_eq k key ≡ true → IsIdle f
  found_here f q e =
      let (g, found, idle) = stuck in
      let same : k ≡ key = (eq_iff k key).0 e in
      let equal : some g ≡ some f = sym found ∙ ap (λ x. lookup x files.transfers) (sym same) ∙ q in
      ground arith

  act-IsStuck : IsStuck key (act k method files)
  act-IsStuck = elim (Option-cases (lookup k files.transfers)) [
    | inl q ↦ rw (act-missing k method files q) stuck
    | inr (f, q) ↦
        let here = found_here f q in
        elim (Bool-cases (is_closed (method f).state && not (is_closed f.state))) [
          | inl e ↦
              let apart : str_eq k key ≡ false = elim (Bool-cases (str_eq k key)) [
                | inl w ↦ ground (arith, here w)
                | inr w ↦ w
              ] in
              rw (act-found k method files f q, e) (drop-IsStuck key k files apart stuck)
          | inr e ↦
              rw (act-found k method files f q, e)
                (put-IsStuck key k (method f) files (λ w. keeps f (here w)) stuck)
        ]
  ]

cancel-IsIdle : (online : Bool) (f : Transfer) → IsIdle f → IsIdle (cancel online f)
unfolding cancel
cancel-IsIdle online f (c, u, p) = ground arith

offered-IsIdle :
    (online : Bool) (version : Option (List String)) (f : Transfer)
    → IsIdle f
    → IsIdle (
        if speaks_one version
        then answer online (record f { version = some "1" })
        else cancel online f)
unfolding answer cancel
offered-IsIdle online version f (c, u, p) = ground arith

answered-IsIdle : (online : Bool) (f : Transfer) → IsIdle f → IsIdle (receive_file online f)
unfolding receive_file cancel
answered-IsIdle online f (c, u, p) = ground arith

iced-IsIdle :
    (c : String) (f : Transfer)
    → IsIdle f
    → IsIdle (
        if not f.pc
        then f
        else if f.stable
        then record f { added = f.added ++ c ∷ [] }
        else record f { candidates = f.candidates ++ c ∷ [] })
iced-IsIdle c f (s, u, p) = ground arith

fail-IsIdle : (f : Transfer) → IsIdle f → fail f ≡ f
unfolding fail
fail-IsIdle f (s, u, p) = ground arith

left-IsStuck :
    (key u : String) (entries : List (String × Transfer)) (f : Transfer)
    → lookup key entries ≡ some f
    → IsIdle f
    → lookup key (user_left_from u entries) ≡ some f
unfolding user_left_from lookup
left-IsStuck key u [] f q idle = cc
left-IsStuck key u (entry ∷ rest) f q idle = elim (Bool-cases (str_eq entry.0 key)) [
  | inl e ↦
      let same : entry.1 ≡ f = ground arith in
      let still : fail entry.1 ≡ entry.1 = rw same (fail-IsIdle f idle) in ground arith
  | inr e ↦ let later = left-IsStuck key u rest f (rw e at q) idle in ground arith
]

apart_of :
    (key k : String) (files : Files)
    → lookup k files.transfers ≡ none
    → IsStuck key files
    → str_eq k key ≡ false
apart_of key k files q (f, found, idle) = elim (Bool-cases (str_eq k key)) [
  | inl e ↦
      let same : k ≡ key = (eq_iff k key).0 e in
      let gone : lookup key files.transfers ≡ none = rw (← same) q in absurd (cc)
  | inr e ↦ e
]

entered-IsStuck :
    (key k : String) (h : Handler) (online : Bool) (f : Transfer) (files : Files)
    → str_eq k key ≡ false
    → IsStuck key files
    → IsStuck key (enter h online k f files)
unfolding enter
entered-IsStuck key k accepts online f files e stuck =
    put-IsStuck key k _ files (λ w. ground arith) stuck
entered-IsStuck key k cancels online f files e stuck =
    put-IsStuck key k _ files (λ w. ground arith) stuck
entered-IsStuck key k throws online f files e stuck = stuck

invited-IsStuck :
    (key : String) (h : Handler) (online : Bool) (u i : String) (version : Option (List String))
    (size : ℕ) (files : Files)
    → IsStuck key files
    → IsStuck key (on_invite h online u i version size files)
unfolding on_invite
invited-IsStuck key h online u i version size files stuck = elim (Bool-cases (speaks_one version)) [
  | inr e ↦ rw e stuck
  | inl e ↦ elim (Option-cases (lookup (fullid u i) files.transfers)) [
    | inr (f, q) ↦ rw (e, q) stuck
    | inl q ↦
        rw (e, q)
          (entered-IsStuck key (fullid u i) h online _ files
            (apart_of key (fullid u i) files q stuck) stuck)
  ]
]

sent-IsStuck :
    (key : String) (users : List String) (h : Handler) (online : Bool) (u i : String) (size : ℕ)
    (files : Files)
    → str_eq (fullid u i) key ≡ false
    → IsStuck key files
    → IsStuck key (send_file users h online u i size files)
unfolding send_file
sent-IsStuck key users h online u i size files apart stuck =
    elim (Bool-cases
      (not (any (str_eq u) users) || is_closed (handled h online (make u i true size)).state)) [
        | inl e ↦ rw e stuck
        | inr e ↦ rw e (put-IsStuck key (fullid u i) _ files (λ w. ground arith) stuck)
      ]

on_cancel-missing :
    (u i : String) (files : Files)
    → lookup (fullid u i) files.transfers ≡ none
    → on_cancel u i files ≡ files
unfolding on_cancel
on_cancel-missing u i files q = ground arith

on_cancel-found :
    (u i : String) (files : Files) (f : Transfer)
    → lookup (fullid u i) files.transfers ≡ some f
    → on_cancel u i files ≡ record files { transfers = erase (fullid u i) files.transfers }
unfolding on_cancel close event
on_cancel-found u i files f q = ground arith

cancelled-IsStuck :
    (key u i : String) (files : Files)
    → str_eq (fullid u i) key ≡ false
    → IsStuck key files
    → IsStuck key (on_cancel u i files)
cancelled-IsStuck key u i files apart stuck =
    elim (Option-cases (lookup (fullid u i) files.transfers)) [
      | inl q ↦ rw (on_cancel-missing u i files q) stuck
      | inr (f, q) ↦
          rw (on_cancel-found u i files f q) (drop-IsStuck key (fullid u i) files apart stuck)
    ]

apply-IsStuck :
    (e : Event) (online : Bool) (key : String) (files : Files)
    → spares key e ≡ true
    → IsStuck key files
    → IsStuck key (apply e online files)
unfolding apply on_offer on_answer on_obsolete on_ice user_left
apply-IsStuck (invites h u i version size) online key files n stuck =
    invited-IsStuck key h online u i version size files stuck
apply-IsStuck (offers u i version) online key files n stuck =
    act-IsStuck key (fullid u i) _ files (offered-IsIdle online version) stuck
apply-IsStuck (answers u i) online key files n stuck =
    act-IsStuck key (fullid u i) _ files (answered-IsIdle online) stuck
apply-IsStuck (cancels_it u i) online key files n stuck =
    cancelled-IsStuck key u i files (ground arith) stuck
apply-IsStuck (obsolete u i) online key files n stuck =
    act-IsStuck key (fullid u i) _ files (cancel-IsIdle online) stuck
apply-IsStuck (app_cancels u i) online key files n stuck =
    act-IsStuck key (fullid u i) _ files (cancel-IsIdle online) stuck
apply-IsStuck (candidate u i c) online key files n stuck =
    act-IsStuck key (fullid u i) _ files (iced-IsIdle c) stuck
apply-IsStuck (sends users h u i size) online key files n stuck =
    sent-IsStuck key users h online u i size files (ground arith) stuck
apply-IsStuck (leaves u) online key files n (f, found, idle) =
    (f, left-IsStuck key u files.transfers f found idle, idle)

pub run-IsStuck :
    (es : List (Event × Bool)) (key : String) (files : Files)
    → All (λ x. spares key x.0 ≡ true) es
    → IsStuck key files
    → IsStuck key (run es files)
unfolding run
run-IsStuck [] key files n stuck = stuck
run-IsStuck (x ∷ xs) key files n stuck =
    run-IsStuck xs key _ n.1 (apply-IsStuck x.0 x.1 key files n.0 stuck)
