-- ===== src/Kv/Grpc.antt =====
-- projects/10-distributed-kv/internal/grpc/proto.go and codec.go: a request that is forwarded to the
-- leader, as bytes.
pub mod ForwardRequest
pub mod ForwardResponse
pub mod Codec
mod Tests
