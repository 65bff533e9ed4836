-- ===== src/Session.antt =====
-- static/protocol.js, `ServerConnection`: the session with the server over a websocket, from
-- `connect` to `onclose`, and how it is carried on over a new websocket.
pub mod State
pub mod Sending
pub mod Sockets
pub mod Members
pub mod Incoming
pub mod Events
pub mod Phases
pub mod Moves
pub mod SocketMoves
pub mod MessageMoves
pub mod Lifetime
pub mod Leaving
pub mod Server
pub mod Delivery
pub mod Linked
pub mod Silence
pub mod Tests
