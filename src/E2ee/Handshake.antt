-- ===== src/E2ee/Handshake.antt =====
-- static/e2ee.js: the handshake, `onMessage`, and what follows each await of `startWith`,
-- `onMessage` and `finalize`.
use sozvon.Base.{
  ℕ, String, Bool, true, false, ◌&&◌, ◌||◌, not, Option, none, some, List, [], ◌∷◌, ◌==◌,
  if◌then◌else◌, str_eq,
}
use sozvon.E2ee.{
  Bytes, KeyPair, Crypto, bytes_equal, protocol_version, initiator, responder, handshaking,
  established, failed, unsupported, peer_unsupported, slow, version, commitment, Body, hello,
  nocrypto, other, commit, dh, Payload, Context, Transcript, resuming, hashing, agreeing, salting,
  keying, chatting, signing, E2ee, ensure_worker, post_key, set_worker_mode, set_state, spawn, send,
}
use sozvon.E2ee.Policy.{is_peer, fail, downgrade, announce_no_crypto, set_peer, start_with}

-- The timer of `startWith`.
unfoldable pub timer_fires : ℕ → E2ee → E2ee
unfolding set_state
timer_fires gen s =
    let s' = record s { timer = none } in
    if gen == s.generation && (elim s.state [ handshaking ↦ true | _ ↦ false ])
    then set_state handshaking (some slow) s'
    else s'

-- The commitment that the salt is bound to.
unfoldable pub bound_commit : E2ee → Option Bytes
bound_commit s = elim s.role [ some initiator ↦ s.peer_commit | _ ↦ s.my_commit ]

-- The roles of the two ends in the transcript.
unfoldable pub transcript_of : Bool → String → String → Bytes → Bytes → Bytes → Transcript
transcript_of is_initiator id peer digest my_pub peer_pub = record {
  initiator_id = if is_initiator then id else peer;
  responder_id = if is_initiator then peer else id;
  commit = digest;
  initiator_pub = if is_initiator then my_pub else peer_pub;
  responder_pub = if is_initiator then peer_pub else my_pub;
}

unfoldable pub finalize_with :
    Option KeyPair → Option Bytes → Option Bytes → Option String → Option Bytes → E2ee → E2ee
unfolding spawn transcript_of
finalize_with (some kp) (some my_pub) (some peer_pub) (some peer) (some digest) s =
    spawn
      (agreeing (record {
        gen = s.generation;
        key_pair = kp;
        peer = peer;
        peer_pub = peer_pub;
        transcript =
            transcript_of (elim s.role [ some initiator ↦ true | _ ↦ false ]) s.id peer digest
              my_pub peer_pub;
      }))
      s
finalize_with _ _ _ _ _ s = s

-- `finalize` up to its first await.
unfoldable pub finalize : E2ee → E2ee
unfolding finalize_with bound_commit
finalize s = finalize_with s.key_pair s.my_pub s.peer_pub s.peer (bound_commit s) s

unfoldable pub set_peer_pub : Bytes → E2ee → E2ee
set_peer_pub pub_key s = record s { session = record (s.session) { peer_pub = some pub_key } }

unfoldable pub got_commit : Bytes → E2ee → E2ee
unfolding bytes_equal
got_commit digest s = elim s.peer_commit [
  | some old ↦ if bytes_equal digest old then s else fail commitment s
  | none ↦
      send (dh s.my_pub) (record s { session = record (s.session) { peer_commit = some digest } })
]

unfoldable pub got_dh : Bytes → E2ee → E2ee
unfolding bytes_equal
got_dh pub_key s = elim s.peer_pub [
  | some old ↦ if bytes_equal pub_key old then s else fail commitment s
  | none ↦ elim s.role [
    | some responder ↦ finalize (send (dh s.my_pub) (set_peer_pub pub_key s))
    | _ ↦ elim s.peer_commit [ none ↦ s | some h ↦ spawn (hashing pub_key) s ]
  ]
]

unfoldable pub same_version : Option ℕ → Bool
same_version none = false
same_version (some v) = v == protocol_version

unfoldable pub dispatch : Body → E2ee → E2ee
dispatch hello s = elim s.role [ some responder ↦ send (commit s.my_commit) s | _ ↦ s ]
dispatch nocrypto s = s
dispatch other s = s
dispatch (commit field) s = elim s.role [
  | some initiator ↦ (elim field [ none ↦ s | some digest ↦ got_commit digest s ])
  | _ ↦ s
]
dispatch (dh field) s = elim field [ none ↦ s | some pub_key ↦ got_dh pub_key s ]

-- `onMessage` after the session is known to have started.
unfoldable pub handle : Payload → E2ee → E2ee
unfolding same_version
handle p s =
    if (elim s.state [ established ↦ true | failed ↦ true | _ ↦ false ])
    then s
    else elim s.my_commit [
      | none ↦ s
      | some h ↦ if not (same_version p.v) then fail version s else dispatch p.body s
    ]

unfoldable pub only_user : String → List String → Bool
only_user from [] = false
only_user from (p ∷ []) = str_eq from p
only_user from (p ∷ q ∷ rest) = false

unfoldable pub has_session : String → E2ee → Bool
unfolding is_peer
has_session from s = is_peer from s.peer && (elim s.key_pair [ none ↦ false | some k ↦ true ])

unfoldable pub is_nocrypto : Body → Bool
is_nocrypto nocrypto = true
is_nocrypto _ = false

-- `onMessage` up to its first await. A falsy payload is `none`.
unfoldable pub on_message : String → Option Payload → E2ee → E2ee
unfolding only_user has_session is_nocrypto
on_message from none s = s
on_message from (some p) s =
    if not (only_user from s.users)
    then s
    else if not s.supported
    then downgrade unsupported (announce_no_crypto (set_peer from s))
    else if is_nocrypto p.body
    then downgrade peer_unsupported
        (record s { session = record (s.session) { peer = some from; peer_supports = some false } })
    else if has_session from s
    then handle p s
    else spawn (resuming p) (start_with from s)

-- The loops over the owners and the kinds, in their order.
unfoldable pub streams : String → String → List (String × String)
streams id peer = (id, "audio") ∷ (id, "video") ∷ (peer, "audio") ∷ (peer, "video") ∷ []

unfoldable pub next_key : Context → Bytes → Bytes → List (String × String) → E2ee → E2ee
next_key ctx secret salt [] s = spawn (chatting ctx secret salt) s
next_key ctx secret salt (x ∷ xs) s = spawn (keying ctx secret salt x xs) s

module _ (c : Crypto) where
  -- After the keys of `startWith` are made: `kp` is the new pair.
  unfoldable pub started : String → ℕ → KeyPair → E2ee → E2ee
  unfolding is_peer send
  started peer gen kp s =
      if not (is_peer peer s.peer) || not (gen == s.generation)
      then s
      else (let my_commit = c.commit (c.export_public kp) in
          let s' = send hello (record s {
            session = record (s.session) {
              key_pair = some kp;
              my_pub = some (c.export_public kp);
              my_commit = some my_commit;
              starting_for = none;
            };
          }) in
          elim s'.role [ some responder ↦ send (commit (some my_commit)) s' | _ ↦ s' ])

  -- The initiator, once the key it was sent is hashed. With no commitment to compare with (the
  -- session was reset meanwhile) `bytesEqual` throws.
  unfoldable pub hashed : Bytes → E2ee → E2ee
  unfolding bytes_equal
  hashed pub_key s = elim s.peer_commit [
    | none ↦ s
    | some h ↦
        if not (bytes_equal (c.commit pub_key) h) then fail commitment s else elim s.peer_pub [
          | some old ↦ s
          | none ↦ elim s.state [ handshaking ↦ finalize (set_peer_pub pub_key s) | _ ↦ s ]
        ]
  ]

  -- The parts of `finalize`, each up to the next await; every one of them stops where the
  -- session is no longer the one it began in.
  unfoldable pub agreed : Context → E2ee → E2ee
  agreed ctx s = elim (c.agree ctx.key_pair ctx.peer_pub) [
    | none ↦ s
    | some secret ↦
        if not (ctx.gen == s.generation)
        then s
        else spawn (salting ctx secret)
            (record s { session = record (s.session) { secret = some secret } })
  ]

  unfoldable pub salted : Context → Bytes → E2ee → E2ee
  unfolding next_key streams
  salted ctx secret s =
      if not (ctx.gen == s.generation)
      then s
      else next_key ctx secret (c.transcript ctx.transcript) (streams s.id ctx.peer) s

  unfoldable pub keyed :
      Context → Bytes → Bytes → String × String → List (String × String) → E2ee → E2ee
  unfolding next_key ensure_worker post_key
  keyed ctx secret salt x xs s =
      if not (ctx.gen == s.generation)
      then s
      else (let s' = ensure_worker s in
          next_key ctx secret salt xs
            (record s' { worker = post_key x (c.derive_media_key secret salt x) s'.worker }))

  unfoldable pub chat_keyed : Context → Bytes → Bytes → E2ee → E2ee
  unfolding set_worker_mode
  chat_keyed ctx secret salt s =
      if not (ctx.gen == s.generation)
      then s
      else spawn (signing ctx secret salt) (
          set_worker_mode false (record s {
            chat = record {
              send_key = some (c.derive_chat_key secret salt s.id);
              recv_key = some (c.derive_chat_key secret salt ctx.peer);
              send_seq = 0;
              recv_next = 0;
            };
          }))

  unfoldable pub signed : Context → Bytes → Bytes → E2ee → E2ee
  unfolding set_state
  signed ctx secret salt s =
      if not (ctx.gen == s.generation)
      then s
      else set_state established none (record s {
        session = record (s.session) {
          sas = some (c.derive_sas secret salt);
          peer_supports = some true;
        };
        timer = none;
        was_encrypted = true;
        clear_agreed = false;
      })
