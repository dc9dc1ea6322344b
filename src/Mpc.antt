-- ===== src/Mpc.antt =====
-- projects/01-mpc-cluster: the field, the sharing and multiplication protocols.
pub mod Error
pub mod Field
pub mod Sharing
pub mod Beaver
pub mod Operations
pub mod Session
pub mod Grpc
pub mod Node
mod Tests
