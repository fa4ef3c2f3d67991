-- ===== src/Relay.antt =====
-- internal/relay: the relay that joins an Agent and a client on a route and passes their bytes on.
pub mod Router
pub mod Epoch
pub mod Ticket
