-- ===== src/Grpc.antt =====
-- pkg/yapr/core/grpc: what gRPC calls of the program. Each part stands in a module of its own.
pub mod Resolver
pub mod Picker
pub mod Balancer
