-- ===== src/E2ee/Policy.antt =====
-- static/e2ee.js: who is in the call, and what follows from it: `setRequire`, `addUser`,
-- `delUser`, `recompute`, `downgrade`, `continueInClear`, `resetPeer`, `fail`, and the start of a
-- session (the part of `startWith` before its first await).
use sozvon.Base.{
  units, ℕ, ◌+◌, String, Bool, true, false, ◌&&◌, ◌||◌, not, Option, none, some, List, [], ◌∷◌,
  ◌++◌, ◌==◌, ltb, if◌then◌else◌, str_eq,
}
use sozvon.E2ee.{
  E2ee, Role, initiator, responder, idle, handshaking, unencrypted, blocked, failed, Detail,
  multipeer, transform, no_session, no_chat, nocrypto, starting, ensure_worker, post_mode,
  post_clear, set_worker_mode, set_state, can_encrypt, no_encrypt_reason, spawn, send,
}

-- JavaScript's order of texts, by their units.
unfoldable pub precedes : List ℕ → List ℕ → Bool
precedes [] [] = false
precedes [] (b ∷ bs) = true
precedes (a ∷ as') [] = false
precedes (a ∷ as') (b ∷ bs) = ltb a b || (a == b && precedes as' bs)

unfoldable pub contains : String → List String → Bool
contains x [] = false
contains x (y ∷ ys) = str_eq y x || contains x ys

unfoldable pub without : String → List String → List String
without x [] = []
without x (y ∷ ys) = if str_eq y x then without x ys else y ∷ without x ys

unfoldable pub is_peer : String → Option String → Bool
is_peer p none = false
is_peer p (some q) = str_eq q p

-- The worker forgets its keys and leaves cleartext mode.
unfoldable pub shut_worker : E2ee → E2ee
unfolding post_mode post_clear
shut_worker s = record s { worker = post_mode false (post_clear s.worker) }

unfoldable pub reset_peer : E2ee → E2ee
unfolding shut_worker
reset_peer s =
    shut_worker (record s {
      generation = s.generation + 1;
      session = no_session;
      chat = no_chat;
      timer = none;
    })

unfoldable pub fail : Detail → E2ee → E2ee
unfolding shut_worker set_state
fail d s = set_state failed (some d) (
    shut_worker (record s {
      generation = s.generation + 1;
      timer = none;
      session = record (s.session) { secret = none; sas = none };
      chat = no_chat;
    }))

unfoldable pub downgrade : Detail → E2ee → E2ee
unfolding set_worker_mode set_state
downgrade reason s =
    if s.require || (s.was_encrypted && not s.clear_agreed)
    then set_state blocked (some reason) (set_worker_mode false s)
    else set_state unencrypted (some reason) (set_worker_mode true s)

unfoldable pub announce_no_crypto : E2ee → E2ee
unfolding send
announce_no_crypto s = send nocrypto s

unfoldable pub set_peer : String → E2ee → E2ee
set_peer p s = record s { session = record (s.session) { peer = some p } }

-- `keyPair || startingFor === peer`, for the peer of this session.
unfoldable pub is_started : String → E2ee → Bool
unfolding is_peer
is_started p s =
    is_peer p s.peer && (elim s.key_pair [ none ↦ is_peer p s.starting_for | some k ↦ true ])

unfoldable pub role_for : String → String → Role
unfolding precedes
role_for id peer = if precedes (units id) (units peer) then initiator else responder

-- `startWith` from `resetPeer` to its first await.
unfoldable pub begin : String → E2ee → E2ee
unfolding set_state ensure_worker set_worker_mode role_for spawn
begin p s =
    let s' = set_worker_mode false (
      ensure_worker (
        set_state handshaking none (record s {
          session = record (s.session) {
            peer = some p;
            starting_for = some p;
            role = some (role_for s.id p);
          };
        }))) in
    spawn (starting p s'.generation) (record s' { timer = some s'.generation })

unfoldable pub start_with : String → E2ee → E2ee
unfolding is_started
start_with p s = if not s.supported then s else if is_started p s then s else begin p (reset_peer s)

-- `recompute`, by the participants other than ourselves.
unfoldable pub recompute_for : List String → E2ee → E2ee
unfolding can_encrypt no_encrypt_reason set_state
recompute_for [] s =
    let s' = reset_peer s in
    if s'.require && not (can_encrypt s')
    then downgrade (no_encrypt_reason s') s'
    else set_state idle none s'
recompute_for (p ∷ []) s =
    if not (can_encrypt s)
    then downgrade (no_encrypt_reason s) (announce_no_crypto (set_peer p s))
    else start_with p s
recompute_for (p ∷ q ∷ rest) s = downgrade multipeer (reset_peer s)

unfoldable pub recompute : E2ee → E2ee
recompute s = recompute_for s.users s

unfoldable pub set_require : Bool → E2ee → E2ee
set_require b s = recompute (record s { require = b })

unfoldable pub add_user : String → E2ee → E2ee
unfolding contains
add_user id s =
    if str_eq id s.id
    then s
    else recompute
        (record s { users = if contains id s.users then s.users else s.users ++ id ∷ [] })

unfoldable pub del_user : String → E2ee → E2ee
unfolding without is_peer
del_user id s =
    let s' = record s { users = without id s.users } in
    recompute (if is_peer id s.peer then reset_peer s' else s')

unfoldable pub awaits_clear_consent : E2ee → Bool
awaits_clear_consent s =
    (elim s.state [ blocked ↦ true | _ ↦ false ])
    && not s.require
    && s.was_encrypted
    && not s.clear_agreed

unfoldable pub may_publish_while_asking : E2ee → Bool
unfolding awaits_clear_consent can_encrypt
may_publish_while_asking s = awaits_clear_consent s && can_encrypt s

-- `mayPublishLocalMedia` of static/galene.js, once the controller is there.
unfoldable pub may_publish_local_media : E2ee → Bool
unfolding may_publish_while_asking
may_publish_local_media s =
    if (elim s.state [ blocked ↦ true | _ ↦ false ]) then may_publish_while_asking s else true

unfoldable pub continue_in_clear : E2ee → E2ee
unfolding awaits_clear_consent set_worker_mode set_state
continue_in_clear s =
    if not (awaits_clear_consent s)
    then s
    else set_state unencrypted s.detail (set_worker_mode true (record s { clear_agreed = true }))

-- `attachSender`: a browser that cannot put the encryptor in place. The sender is there.
unfoldable pub attach_sender : Bool → E2ee → E2ee × Bool
unfolding ensure_worker
attach_sender works s =
    if not s.supported then (s, false) else if works then (ensure_worker s, true) else (
      downgrade transform
          (announce_no_crypto (record (ensure_worker s) { transform_failed = true })),
      false,
    )
