-- ===== src/Example.antt =====
-- cmd/example: the programs that use the SDK.
pub mod Bytes
pub mod Message
pub mod Server
pub mod Client
pub mod Replies
pub mod Exchange
pub mod Process
pub mod Echo
pub mod Stress
pub mod Pods
