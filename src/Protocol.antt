-- ===== src/Protocol.antt =====
-- internal/protocol: the envelopes of Protocol V1, the Hello negotiation and the ordered stream
-- that the Agent keeps for one physical connection.
pub mod Envelope
pub mod Message
pub mod Names
pub mod Negotiation
pub mod Stream
