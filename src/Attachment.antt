-- ===== src/Attachment.antt =====
-- internal/attachment: the files that a client hands to the Agent.
pub mod Aggregate
pub mod Text
pub mod Upload
pub mod Staging
pub mod Receive
pub mod Finish
pub mod Retire
pub mod Transfer
pub mod Content
