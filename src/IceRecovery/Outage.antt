-- ===== src/IceRecovery/Outage.antt =====
-- A connection that goes down and stays down is restarted.
use sozvon.Base.{
  ℕ, ◌+◌, ◌≤◌, ◌≡◌, refl, ◌∙◌, ◌≢◌, String, false, none, some, List, [], ◌∷◌, ◌++◌, if◌then◌else◌,
  lookup, insert, erase, lookup-insert, lookup-erase, str_eq, eq_refl, arith, All, Option-cases,
  inl, inr,
}
use sozvon.IceRecovery.{
  disconnected, Stream, Recovery, resume, observe, decide, update, restarted, forget, or_fresh,
  fresh, disconnected_for,
}
use sozvon.IceRecovery.Spacing.{Event, resumes, updates, restarts, forgets, step, asked}

-- The event leaves the history of `id` alone.
abbrev pub IsOther : String → Event → Type 0
IsOther id (resumes now) = Unit {0}
IsOther id (updates j state now) = str_eq j id ≡ false
IsOther id (restarts j now) = str_eq j id ≡ false
IsOther id (forgets j) = str_eq j id ≡ false

history : String → List (String × Stream) → Stream
history id m = or_fresh (lookup id m)

history-insert :
    (id j : String) (v : Stream) (m : List (String × Stream))
    → history id (insert j v m) ≡ (if str_eq j id then v else history id m)
unfolding history
history-insert id j v m = ground (arith, lookup-insert j id v m)

history-erase :
    (id j : String) (m : List (String × Stream))
    → str_eq j id ≡ false
    → history id (erase j m) ≡ history id m
unfolding history
history-erase id j m h = ground (arith, lookup-erase j id m)

history-step :
    (id : String) (r : Recovery) (e : Event)
    → IsOther id e
    → history id (step r e).streams ≡ history id r.streams
unfolding step resume restarted forget update
history-step id r (resumes now) h = refl
history-step id r (updates j state now) h = rw (history-insert, h)
history-step id r (restarts j now) h = rw (history-insert, h)
history-step id r (forgets j) h = history-erase id j r.streams h

abbrev after_outage : ℕ → Stream
after_outage t = record { disconnected_since = some t; restarted_at = none }

decide_first :
    (until t : ℕ) (s : Stream)
    → s ≡ fresh
    → (decide until disconnected t (observe disconnected t s)).1 ≡ none
    → (decide until disconnected t (observe disconnected t s)).0 ≡ after_outage t
unfolding decide observe
decide_first until t s e h = ground arith

decide_later :
    (until t now : ℕ) (s : Stream)
    → s ≡ after_outage t
    → t + disconnected_for ≤ now
    → (decide until disconnected now (observe disconnected now s)).1 ≢ none
unfolding decide observe
decide_later until t now s e h = ground arith

-- The first report that a connection is down, if it restarts nothing, leaves its time.
update_first :
    (id : String) (t : ℕ) (r : Recovery)
    → history id r.streams ≡ fresh
    → (update id disconnected t r).1 ≡ none
    → history id (update id disconnected t r).0.streams ≡ after_outage t
unfolding update observe
update_first id t r e h =
    rw (history-insert, eq_refl) (decide_first r.suspect_until t _ (unfold history in e) h)

update_later :
    (id : String) (t now : ℕ) (r : Recovery)
    → history id r.streams ≡ after_outage t
    → t + disconnected_for ≤ now
    → (update id disconnected now r).1 ≢ none
unfolding update observe history
update_later id t now r e h = decide_later r.suspect_until t now _ (unfold history in e) h

asked_after :
    (id : String) (t now : ℕ) (es : List Event) (r : Recovery)
    → history id r.streams ≡ after_outage t
    → All (IsOther id) es
    → t + disconnected_for ≤ now
    → asked id r (es ++ updates id disconnected now ∷ []) ≢ []
unfolding asked
asked_after id t now [] r e h k = ground (arith, eq_refl id, update_later id t now r e k)
asked_after id t now (resumes x ∷ es) r e h k =
    asked_after id t now es _ (history-step id r _ h.0 ∙ e) h.1 k
asked_after id t now (restarts j x ∷ es) r e h k =
    asked_after id t now es _ (history-step id r _ h.0 ∙ e) h.1 k
asked_after id t now (forgets j ∷ es) r e h k =
    asked_after id t now es _ (history-step id r _ h.0 ∙ e) h.1 k
asked_after id t now (updates j state x ∷ es) r e h k =
    let rest =
      asked_after id t now es (step r (updates j state x)) (history-step id r _ h.0 ∙ e) h.1 k in
    ground (arith, rest)

-- A connection that is not known yet and is reported down at `t` and again at `now`, at least
-- `disconnected_for` later, is restarted by one of the two reports, whatever happened to the other
-- connections between them.
pub outage_restarts :
    (id : String) (t now : ℕ) (es : List Event) (r : Recovery)
    → lookup id r.streams ≡ none
    → All (IsOther id) es
    → t + disconnected_for ≤ now
    → asked id r (updates id disconnected t ∷ es ++ updates id disconnected now ∷ []) ≢ []
unfolding asked history
outage_restarts id t now es r l h k = elim (Option-cases (update id disconnected t r).1) [
  | inl q ↦ ground (
    arith,
    asked_after id t now es (step r (updates id disconnected t))
        (unfold step in update_first id t r (rw (l, history)) q) h k,
  )
  | inr (why, q) ↦ ground (arith, eq_refl id)
]
