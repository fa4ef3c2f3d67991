-- ===== src/Devices.antt =====
-- internal/deviceidentity: the Agent's store of the client devices that it has authorized.
pub mod Validation
pub mod Records
pub mod Descriptor
pub mod Agent
pub mod Store
