-- ===== src/Pairing.antt =====
-- internal/pairing: the invitation that a new client scans.
pub mod Invitation
pub mod Manager
