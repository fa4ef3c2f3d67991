-- ===== src/Server.antt =====
-- internal/server: the life of a PTY session and what it keeps for a client that comes back.
pub mod Lifecycle
pub mod Replay
pub mod Nonces
pub mod PairedSession
