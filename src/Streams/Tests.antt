-- ===== src/Streams/Tests.antt =====
-- Streams at concrete inputs.
use sozvon.Base.{◌≡◌, refl, true, false, some, List, [], ◌∷◌}
use sozvon.Streams.{
  Stream, make, Table, got_local_ice, got_remote_ice, flush_local, flush_remote, described_now,
  negotiated, new_up_stream, close_up, on_answer, on_renegotiate, on_abort,
}
use sozvon.Streams.Candidates
use sozvon.Streams.Candidates.{
  local, remote, describes, negotiates, IsOrdered, locals, remotes, candidates_in_order,
}
use sozvon.Streams.Gone.{Event, candidate, new_up, run, late_messages_ignored}

abbrev found : List Candidates.Event
found = local "a" ∷ remote "x" ∷ negotiates ∷ local "b" ∷ describes ∷ remote "y" ∷ []

candidates_in_order_example :
    IsOrdered (locals found) (remotes found) (Candidates.run found (make "s1" "cam" true))
candidates_in_order_example = candidates_in_order "s1" "cam" true found

-- All of them reached the other side.
both_given : (Candidates.run found (make "s1" "cam" true)).told ≡ "a" ∷ "b" ∷ []
unfolding Candidates.run Candidates.apply got_local_ice got_remote_ice negotiated flush_local
    described_now flush_remote
both_given = refl

abbrev empty : Table
empty = record { up = []; down = []; closed_up = []; sent = [] }

abbrev camera : Stream
camera = make "s1" "cam" true

abbrev changes : List Event
changes = new_up "s2" (some "cam") "l2" ∷ candidate "s1" "x" ∷ []

abbrev later_table : Table
later_table =
    run true changes (close_up true false camera (new_up_stream true "s1" (some "cam") "l1" empty))

late_messages_ignored_example :
    (on_answer true true "s1" later_table ≡ (later_table, false))
    × (on_renegotiate "s1" later_table ≡ (later_table, false))
    × (on_abort true "s1" later_table ≡ (later_table, false))
late_messages_ignored_example =
    late_messages_ignored true false true camera changes
      (new_up_stream true "s1" (some "cam") "l1" empty) later_table (refl, (tt, tt)) refl
