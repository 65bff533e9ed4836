-- ===== src/Transfer/Invited.antt =====
-- What becomes of an invitation (static/protocol.js, `fileTransfer`) that the application rejects.
use sozvon.Base.{
  ℕ, ◌≡◌, refl, ap, ◌∙◌, String, true, false, Option, none, some, List, arith, lookup, insert,
  lookup-insert, eq_refl, Bool, All,
}
use sozvon.Transfer.Object.{State, inviting, closed, Transfer, make, event, close, cancel}
use sozvon.Transfer.Dictionary.{
  Files, Handler, cancels, refuse, enter, on_invite, fullid, speaks_one,
}
use sozvon.Transfer.Course.{Event, run}
use sozvon.Transfer.Idle.{spares, IsIdle, IsStuck, run-IsStuck}

abbrev pub map_state : Option Transfer → Option State
map_state none = none
map_state (some f) = some f.state

module _ (userid id : String) (size : ℕ) (files : Files) where
  invited : Transfer
  invited = record (make userid id false size) { version = some "1"; state = inviting }

  rejected : Files
  rejected = record files {
    transfers = insert (fullid userid id) (cancel true invited) files.transfers;
  }

  on_invite-eq :
      (version : Option (List String))
      → lookup (fullid userid id) files.transfers ≡ none
      → speaks_one version ≡ true
      → on_invite cancels true userid id version size files ≡ rejected
  unfolding on_invite invited rejected enter
  on_invite-eq version free s = ground arith

  rejected-found : lookup (fullid userid id) rejected.transfers ≡ some (cancel true invited)
  unfolding rejected
  rejected-found = ground (
    arith,
    eq_refl (fullid userid id),
    lookup-insert (fullid userid id) (fullid userid id) (cancel true invited) files.transfers,
  )

on_invite_found :
    (handler : Handler) (online : Bool) (userid id : String) (version : Option (List String))
    (size : ℕ) (files : Files) (f : Transfer)
    → lookup (fullid userid id) files.transfers ≡ some f
    → on_invite handler online userid id version size files ≡ refuse userid id files
unfolding on_invite
on_invite_found handler online userid id version size files f e = ground arith

invited-IsIdle :
    (userid id : String) (size : ℕ) (files : Files)
    → IsIdle (cancel true (invited userid id size files))
unfolding cancel invited close event
invited-IsIdle userid id size files = (refl, refl, refl)

-- An application that rejects an invitation in a known version under a free name by `cancel`, as the
-- comment of `receive` says, leaves the closed transfer in the dictionary. Whatever follows while the
-- application does not call `receive` on it and no file is sent under its name, it stays there until a
-- cancel message under its name comes, and every invitation under its name is refused without the
-- application being asked.
pub cancelled_invite_stays :
    (userid id : String) (size size' : ℕ) (version version' : Option (List String))
    (handler : Handler) (online : Bool) (files : Files) (es : List (Event × Bool))
    → lookup (fullid userid id) files.transfers ≡ none
    → speaks_one version ≡ true
    → All (λ x. spares (fullid userid id) x.0 ≡ true) es
    → let after = run es (on_invite cancels true userid id version size files) in
      (map_state (lookup (fullid userid id) after.transfers) ≡ some closed)
      × (on_invite handler online userid id version' size' after ≡ refuse userid id after)
unfolding invited
cancelled_invite_stays userid id size size' version version' handler online files es free s n =
    let f = cancel true (invited userid id size files) in
    let found = rejected-found userid id size files in
    let stuck : IsStuck (fullid userid id) (on_invite cancels true userid id version size files) =
      rw (on_invite-eq userid id size files version free s)
        (f, found, invited-IsIdle userid id size files) in
    let (g, there, idle) = run-IsStuck es (fullid userid id) _ n stuck in
    (
      ap map_state there ∙ ap some idle.0,
      on_invite_found handler online userid id version' size' _ g there,
    )
