-- ===== src/Transfer.antt =====
-- static/protocol.js: files sent from one client to another, `TransferredFile`.
pub mod Object
pub mod Chunks
pub mod Data
pub mod Dictionary
pub mod Closing
pub mod Course
pub mod Idle
pub mod Invited
pub mod Delivery
pub mod Tests
