-- ===== src/Sdk.antt =====
-- pkg/yapr/core/sdk.
pub mod Client
pub mod Server
pub mod Metadata
pub mod Handover
pub mod Init
