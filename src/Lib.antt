-- ===== src/Lib.antt =====
-- Sozvon: the browser client's own logic, in static/. Each of its scripts that keeps state or
-- decides something is a module here.
--
-- The parts, and how they interact:
--
-- - E2ee (static/e2ee.js): the controller of end-to-end encryption. `E2ee` is its state; its methods
--   are functions on the state in E2ee/Policy.antt and E2ee/Handshake.antt, under the methods' names
--   in snake case. A method that awaits is cut there: what follows is a `Task` of the state, and
--   `wakes` of E2ee/Machine.antt runs any waiting task, so that a run of events is any interleaving.
--   The worker is part of the state (its mode and its keys); what is sent to the peer is the list
--   `sent`. E2ee/Chat.antt is the chat. WebCrypto is the parameter `Crypto`, AES-GCM `Cipher`.
--   `may_publish_local_media` is the test of static/galene.js before it publishes.
-- - Frames (static/e2ee-crypto.js): bytes of frames, counters, chat and handshake. AES-GCM is `Aead`,
--   what is relied on is `IsAead`; the text encoder is a function.
-- - Transform (static/e2ee-worker.js): the worker, with `Frames` for its cipher.
-- - Signalling (static/signalling-resume.js): the log that a resumed session replays from.
-- - Session (static/protocol.js, `ServerConnection` from `connect` to `onclose`): the state is the
--   record `Session` of Session/State.antt, with the variables of `connect`; `send` and `close` are in
--   Session/Sending.antt, `gone`, `resume`, `retry`, the socket's handlers and the timers in
--   Session/Sockets.antt under their names (`resume_session` for `resume`), `gotMessage` in
--   Session/Incoming.antt and Session/Members.antt. Session/Events.antt is the step relation: what the
--   application and the browser may do, in any order. `wire` is what went out on which socket and
--   `accepted` what was pushed on the log. Session/Server.antt adds what is asked of the server
--   (rtpconn/resume.go, not translated): it reads one socket in order, and answers a resumption with
--   the number of the messages it has taken; what is already on the way when a socket dies may be
--   read or not. Session/Phases.antt has the invariant of a running session and what one event can
--   do to it; Session/Moves.antt, Session/SocketMoves.antt and Session/MessageMoves.antt show that of
--   each handler. Closing the streams in `gone` sends nothing, as the socket no longer takes messages
--   by then, and is only recorded.
-- - Transfer (static/protocol.js, `TransferredFile`, `sendFile`, `fileTransfer`): Transfer/Object.antt
--   has the transfer and how it is closed, Transfer/Chunks.antt how a file is cut,
--   Transfer/Data.antt both ends of the data and the negotiation, cut at each wait,
--   Transfer/Dictionary.antt the table of transfers and the messages about them, Transfer/Course.antt
--   what happens to it, one event after the other. It is told by Session
--   when a user leaves.
-- - IceRecovery (static/ice-recovery.js), TurnFallback (static/turn-fallback.js): when a connection
--   is restarted, and when UDP is given up; static/galene.js polls both.
-- - ConnectionQuality (static/connection-quality.js): the level of a connection, from its statistics.
-- - Bitrate (static/bitrate-control.js): the caps that receivers ask a sender to keep to.
--   Bitrate/Caps.antt is the sender's registry of them, Bitrate/Controller.antt the receiver's
--   `Controller`: one poll is `update`, cut where the source's paragraphs end.
-- - Away (static/away.js), MicRecovery (static/mic-recovery.js): whose fault an interruption was, and
--   the reopening of a microphone.
-- - Streams (static/protocol.js, `Stream` and the messages about streams): the tables of streams and
--   each stream's candidates. An awaited call of the browser ends one function and begins the next.
-- - LoadGuard (static/load-guard.js): when the page is uncovered and when it is loaded again; a tab is a
--   sequence of pages that share the stored count.
-- - MediaHelp (static/media-help.js): what is told to someone whose camera was refused.
-- - CameraDiag (static/camera-diag.js): the report on where a camera's picture stops.
-- - GuestName (static/guest-name.js): pseudonyms, and the names that travel inside the encrypted
--   channel.
-- - Base: lists, maps and tests on numbers that the others share. A JavaScript `Map` with text keys is
--   an association list in order of insertion.
--
-- Numbers: times are whole milliseconds, and `now - t >= d` is `t + d <= now`; a share of packets is
-- in millionths, a rate that another client sends in thousandths. Counters of 48 bits are written
-- out, with the wrap-around of `>>>` and `&`; the theorems say where they need room. Every loop goes
-- over a list but the one that cuts a chunk of a file, whose fuel is the length of the chunk: each
-- round takes at least a byte. The sockets of a session are numbered as they are made.
--
-- Not modelled: drawing, texts and devices; callbacks that only tell the interface; what a
-- callback calls in turn, which is a later event; exceptions of the socket in the controller of
-- encryption; the reading of user agents; session descriptions, and the table of what each user
-- sends; base64 and the wrappers of WebCrypto; `attachReceiver`; of static/bitrate-control.js, the
-- collection of snapshots and the reports. The rest of static/ and the Go server are other programs to
-- this library.
pub mod Away
pub mod Base
pub mod Bitrate
pub mod CameraDiag
pub mod ConnectionQuality
pub mod E2ee
pub mod Frames
pub mod GuestName
pub mod IceRecovery
pub mod LoadGuard
pub mod MediaHelp
pub mod MicRecovery
pub mod Session
pub mod Signalling
pub mod Streams
pub mod Transfer
pub mod Transform
pub mod TurnFallback
