-- ===== src/Transfer/Dictionary.antt =====
-- static/protocol.js: `transferredFiles` and the messages about transfers, `sendFile` and
-- `fileTransfer`.
use sozvon.Base.{
  ℕ, String, Bool, true, false, not, ◌&&◌, ◌||◌, Option, none, some, List, [], ◌∷◌, if◌then◌else◌,
  any, ◌++◌, str_eq, lookup, insert, erase,
}
use Prim.Native.String.{◌++◌ as str_append}
use sozvon.Transfer.Object.{
  inviting, cancelled, is_closed, Transfer, invites, make, event, say, close, cancel, fail,
}
use sozvon.Transfer.Data.{answer, receive_file}

unfoldable pub fullid : String → String → String
fullid userid id = str_append userid (str_append "-" id)

-- `refusals` are the invitations that were answered with a cancel message and no transfer.
pub record Files : Type 0 where
  pub transfers : List (String × Transfer)
  pub refusals : List (String × String)

-- What the application does with a transfer that it is shown.
pub data Handler : Type 0 where
  accepts cancels throws : Handler

-- A method of a transfer in the dictionary; where `close` goes through, it takes the transfer out.
-- Of the methods here only `on_cancel`, which is apart, makes it go through a second time.
unfoldable pub act : String → (Transfer → Transfer) → Files → Files
act key method files = elim (lookup key files.transfers) [
  | none ↦ files
  | some f ↦
      let f' = method f in
      if is_closed f'.state && not (is_closed f.state)
      then record files { transfers = erase key files.transfers }
      else record files { transfers = insert key f' files.transfers }
]

abbrev pub refuse : String → String → Files → Files
refuse userid id files = record files { refusals = (userid, id) ∷ files.refusals }

abbrev pub speaks_one : Option (List String) → Bool
speaks_one none = false
speaks_one (some vs) = any (str_eq "1") vs

-- The application is shown the transfer. `onfiletransfer` is set; what it throws is a cancel.
abbrev pub handled : Handler → Bool → Transfer → Transfer
handled accepts online f = f
handled cancels online f = cancel online f
handled throws online f = cancel online f

-- The transfer is put into the dictionary unless the application threw.
unfoldable pub enter : Handler → Bool → String → Transfer → Files → Files
enter throws online key f files = files
enter handler online key f files = record files {
  transfers = insert key (handled handler online f) files.transfers;
}

-- The message `invite`.
unfoldable pub on_invite :
    Handler → Bool → String → String → Option (List String) → ℕ → Files → Files
unfolding enter fullid
on_invite handler online userid id version size files =
    if not (speaks_one version)
    then refuse userid id files
    else elim (lookup (fullid userid id) files.transfers) [
      | some f ↦ refuse userid id files
      | none ↦
          enter handler online (fullid userid id)
            (record (make userid id false size) { version = some "1"; state = inviting }) files
    ]

-- `sendFile`, with the transfer's new id; unlike `on_invite` it tests whether the application
-- cancelled. An unknown user is thrown at. Offline the invitation throws and the transfer stays in the
-- dictionary.
unfoldable pub send_file : List String → Handler → Bool → String → String → ℕ → Files → Files
unfolding event cancel close fullid
send_file users handler online userid id size files =
    let f = handled handler online (make userid id true size) in
    if not (any (str_eq userid) users) || is_closed f.state then files else record files {
      transfers =
          insert (fullid userid id) (if online then event inviting (say invites f) else f)
            files.transfers;
    }

-- The message `offer`.
unfoldable pub on_offer : Bool → String → String → Option (List String) → Files → Files
unfolding act
on_offer online userid id version files =
    act (fullid userid id)
      (λ f.
        if speaks_one version
        then answer online (record f { version = some "1" })
        else cancel online f)
      files

-- The message `answer`.
unfoldable pub on_answer : Bool → String → String → Files → Files
unfolding act
on_answer online userid id files = act (fullid userid id) (λ f. receive_file online f) files

-- The message `ice`.
unfoldable pub on_ice : String → String → String → Files → Files
unfolding act
on_ice userid id c files =
    act (fullid userid id)
      (λ f.
        if not f.pc
        then f
        else if f.stable
        then record f { added = f.added ++ c ∷ [] }
        else record f { candidates = f.candidates ++ c ∷ [] })
      files

-- The message `cancel`. A transfer that was closed already becomes cancelled, so that `close` goes
-- through once more and takes it out too.
unfoldable pub on_cancel : String → String → Files → Files
unfolding fullid event close
on_cancel userid id files = elim (lookup (fullid userid id) files.transfers) [
  | none ↦ files
  | some f ↦
      let f' = close (event cancelled f) in
      record files {
        transfers =
            if is_closed f'.state
            then erase (fullid userid id) files.transfers
            else insert (fullid userid id) f' files.transfers;
      }
]

-- The messages of other versions of the protocol.
unfoldable pub on_obsolete : Bool → String → String → Files → Files
unfolding act
on_obsolete online userid id files = act (fullid userid id) (λ f. cancel online f) files

-- The user `userid` has left the group.
unfoldable pub user_left_from : String → List (String × Transfer) → List (String × Transfer)
unfolding fail
user_left_from userid [] = []
user_left_from userid (entry ∷ rest) =
    let f' = if str_eq entry.1.userid userid then fail entry.1 else entry.1 in
    let rest' = user_left_from userid rest in
    if is_closed f'.state && not (is_closed entry.1.state) then rest' else (entry.0, f') ∷ rest'

unfoldable pub user_left : String → Files → Files
unfolding user_left_from
user_left userid files = record files { transfers = user_left_from userid files.transfers }
