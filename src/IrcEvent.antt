-- ===== src/IrcEvent.antt =====
-- Package ircevent, the client: the part of each child is in its first lines.
pub mod Registry
pub mod Labels
pub mod Batches
pub mod Caps
pub mod Connection
pub mod Session
pub mod Ctcp
pub mod SaslClient
pub mod Setup
pub mod Numerics
