-- ===== src/Mpc/Grpc.antt =====
-- projects/01-mpc-cluster/internal/grpc/proto.go and codec.go: the messages between the coordinator
-- and the nodes, as bytes.
pub mod NodeInfo
pub mod Ack
pub mod TaskRequest
pub mod PeerEntry
pub mod ShareData
pub mod TripleData
pub mod Task
pub mod ResultMsg
pub mod Msg
pub mod HeartbeatPing
pub mod HeartbeatPong
pub mod Codec
mod Tests
