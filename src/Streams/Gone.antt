-- ===== src/Streams/Gone.antt =====
-- Messages for an up stream that was closed.
use sozvon.Base.{
  ◌≡◌, inl, inr, String, Bool, true, false, Option, none, some, List, [], ◌∷◌, arith, Bool-cases,
  Option-cases, any, str_eq, eq_iff, eq_refl, lookup, insert, lookup-insert, lookup-erase, All,
}
use sozvon.Streams.{
  Stream, make, Table, close_up, close_down, up_stream_for, on_abort, on_renegotiate, on_answer,
  on_close, on_remote_ice, find_by_local_id, new_up_stream, create_up, asked_for, on_offer,
  replaced, got_remote_ice, described_now,
}

-- What happens to the table. `aborted`, `renegotiates`, `answered`, `closed`, `candidate` and
-- `offered` are the server's messages, `new_up` and `closes_up` calls of the application.
pub data Event : Type 0 where
  aborted renegotiates closed : String → Event
  answered : Bool → String → Event
  candidate : String → String → Event
  offered : String → Option String → String → Option String → String → Event
  new_up : String → Option String → String → Event
  closes_up : Bool → Stream → Event

unfoldable pub apply : Bool → Event → Table → Table
apply online (aborted id) t = (on_abort online id t).0
apply online (renegotiates id) t = (on_renegotiate id t).0
apply online (closed id) t = on_close id t
apply online (answered good id) t = (on_answer online good id t).0
apply online (candidate id c) t = on_remote_ice id c t
apply online (offered id label source replace new_local_id) t =
    on_offer online id label source replace new_local_id t
apply online (new_up id local_id new_local_id) t = new_up_stream online id local_id new_local_id t
apply online (closes_up replacing s) t = close_up online replacing s t

unfoldable pub run : Bool → List Event → Table → Table
run online [] t = t
run online (e ∷ es) t = run online es (apply online e t)

-- The id of a new up stream is another one.
abbrev pub IsOther : String → Event → Type 0
IsOther id (new_up j local_id new_local_id) = str_eq j id ≡ false
IsOther id _ = Unit {0}

pub record IsGone (id : String) (t : Table) : Type 0 where
  pub absent : lookup id t.up ≡ none
  pub known : any (str_eq id) t.closed_up ≡ true

close_up-IsGone :
    (online replacing : Bool) (s : Stream) (t : Table) → IsGone s.id (close_up online replacing s t)
unfolding close_up
close_up-IsGone online replacing s t = record {
  absent = ground (arith, lookup-erase s.id s.id t.up, eq_refl s.id);
  known = ground (arith, eq_refl s.id);
}

module _ (id : String) (t : Table) (v : IsGone id t) where
  close_up-kept : (online replacing : Bool) (s : Stream) → IsGone id (close_up online replacing s t)
  unfolding close_up
  close_up-kept online replacing s = ground (arith, lookup-erase s.id id t.up)

  insert-kept :
      (j : String) (s : Stream)
      → str_eq j id ≡ false
      → IsGone id (record t { up = insert j s t.up })
  insert-kept j s h = record { absent = ground (arith, lookup-insert j id s t.up); known = v.known }

  other_if_there : (j : String) (s : Stream) → lookup j t.up ≡ some s → str_eq j id ≡ false
  other_if_there j s e = elim (Bool-cases (str_eq j id)) [
    | inl q ↦ let same : j ≡ id = (eq_iff j id).0 q in absurd (let e' = rw same at e in cc)
    | inr q ↦ q
  ]

abort-IsGone :
    (id : String) (online : Bool) (j : String) (t : Table)
    → IsGone id t
    → IsGone id (on_abort online j t).0
unfolding on_abort up_stream_for
abort-IsGone id online j t v = elim (Option-cases (lookup j t.up)) [
  | inl e ↦ ground arith
  | inr (s, e) ↦ ground (arith, close_up-kept id t v online false s)
]

answer-IsGone :
    (id : String) (online good : Bool) (j : String) (t : Table)
    → IsGone id t
    → IsGone id (on_answer online good j t).0
unfolding on_answer up_stream_for
answer-IsGone id online good j t v = elim (Option-cases (lookup j t.up)) [
  | inl e ↦ ground arith
  | inr (s, e) ↦ ground (
    arith,
    close_up-kept id t v online false s,
    insert-kept id t v j (described_now s) (other_if_there id t v j s e),
  )
]

ice-IsGone : (id j c : String) (t : Table) → IsGone id t → IsGone id (on_remote_ice j c t)
unfolding on_remote_ice
ice-IsGone id j c t v = elim (Option-cases (lookup j t.up)) [
  | inl e ↦ ground arith
  | inr (s, e) ↦
      ground (arith, insert-kept id t v j (got_remote_ice c s) (other_if_there id t v j s e))
]

create-IsGone :
    (id : String) (online : Bool) (j : String) (l : Option String) (n : String) (t : Table)
    → str_eq j id ≡ false
    → IsGone id t
    → IsGone id (create_up online j l n t)
unfolding create_up
create-IsGone id online j none n t h v = insert-kept id t v j (make j n true) h
create-IsGone id online j (some l) n t h v = elim (Option-cases (find_by_local_id l t.up)) [
  | inl e ↦ ground (arith, insert-kept id t v j (make j l true) h)
  | inr (old, e) ↦
      let w = close_up-kept id t v online true old in
      ground (
        arith,
        insert-kept id (close_up online true old t) w j
            (record (make j l true) { replace = some old.id }) h,
      )
]

new-IsGone :
    (id : String) (online : Bool) (j : String) (l : Option String) (n : String) (t : Table)
    → str_eq j id ≡ false
    → IsGone id t
    → IsGone id (new_up_stream online j l n t)
unfolding new_up_stream
new-IsGone id online j l n t h v = elim (Option-cases (lookup j t.up)) [
  | inl e ↦ ground (arith, create-IsGone id online j (asked_for l) n t h v)
  | inr (old, e) ↦ ground arith
]

apply-IsGone :
    (id : String) (online : Bool) (e : Event) (t : Table)
    → IsOther id e
    → IsGone id t
    → IsGone id (apply online e t)
unfolding apply on_renegotiate on_close close_down on_offer replaced
apply-IsGone id online (aborted j) t h v = abort-IsGone id online j t v
apply-IsGone id online (renegotiates j) t h v = ground arith
apply-IsGone id online (closed j) t h v = ground arith
apply-IsGone id online (answered good j) t h v = answer-IsGone id online good j t v
apply-IsGone id online (candidate j c) t h v = ice-IsGone id j c t v
apply-IsGone id online (offered j l s none n) t h v = ground arith
apply-IsGone id online (offered j l s (some r) n) t h v = ground arith
apply-IsGone id online (new_up j l n) t h v = new-IsGone id online j l n t h v
apply-IsGone id online (closes_up replacing s) t h v = close_up-kept id t v online replacing s

run-IsGone :
    (id : String) (online : Bool) (es : List Event) (t : Table)
    → All (IsOther id) es
    → IsGone id t
    → IsGone id (run online es t)
unfolding run
run-IsGone id online [] t h v = v
run-IsGone id online (e ∷ es) t h v =
    run-IsGone id online es _ h.1 (apply-IsGone id online e t h.0 v)

-- Once an up stream was closed or replaced, whatever happens to the other streams, a late answer,
-- renegotiation or abort of the server for it neither throws nor changes anything.
pub late_messages_ignored :
    (online replacing good : Bool) (s : Stream) (es : List Event) (t u : Table)
    → All (IsOther s.id) es
    → u ≡ run online es (close_up online replacing s t)
    → (on_answer online good s.id u ≡ (u, false))
      × (on_renegotiate s.id u ≡ (u, false))
      × (on_abort online s.id u ≡ (u, false))
unfolding on_answer on_renegotiate on_abort up_stream_for
late_messages_ignored online replacing good s es t u h e =
    let v : IsGone s.id u =
      rw e (run-IsGone s.id online es _ h (close_up-IsGone online replacing s t)) in
    (
      ground (arith, v.absent, v.known),
      ground (arith, v.absent, v.known),
      ground (arith, v.absent, v.known),
    )
