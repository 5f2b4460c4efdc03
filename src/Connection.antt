-- ===== src/Connection.antt =====
-- src/connection.rs: the open connections of the users, and what one connection does.
pub mod Active
pub mod System
pub mod Life
pub mod Socket
pub mod Auth
pub mod Handshake
