-- ===== src/Transfer/Course.antt =====
-- What happens to the dictionary of transfers (static/protocol.js, `fileTransfer`, `sendFile` and the
-- users who leave), one event after the other.
use sozvon.Base.{ℕ, String, Option, List, Bool, [], ◌∷◌}
use sozvon.Transfer.Object.{cancel}
use sozvon.Transfer.Dictionary.{
  Files, Handler, on_invite, fullid, act, on_offer, on_answer, on_cancel, on_obsolete, on_ice,
  send_file, user_left,
}

-- What happens to the dictionary: messages, calls of the application, users who leave.
pub data Event : Type 0 where
  invites : Handler → String → String → Option (List String) → ℕ → Event
  offers : String → String → Option (List String) → Event
  answers cancels_it obsolete app_cancels : String → String → Event
  candidate : String → String → String → Event
  sends : List String → Handler → String → String → ℕ → Event
  leaves : String → Event

unfoldable pub apply : Event → Bool → Files → Files
apply (invites h u i version size) online files = on_invite h online u i version size files
apply (offers u i version) online files = on_offer online u i version files
apply (answers u i) online files = on_answer online u i files
apply (cancels_it u i) online files = on_cancel u i files
apply (obsolete u i) online files = on_obsolete online u i files
apply (app_cancels u i) online files = act (fullid u i) (cancel online) files
apply (candidate u i c) online files = on_ice u i c files
apply (sends users h u i size) online files = send_file users h online u i size files
apply (leaves u) online files = user_left u files

unfoldable pub run : List (Event × Bool) → Files → Files
run [] files = files
run (x ∷ xs) files = run xs (apply x.0 x.1 files)
