-- ===== src/Store.antt =====
-- pkg/yapr/core/store/impl.
pub mod Routes
pub mod Etcd
pub mod Config
pub mod Services
pub mod Leases
pub mod Attributes
pub mod Migrations
