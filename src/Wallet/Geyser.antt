-- ===== src/Wallet/Geyser.antt =====
-- The messages of projects/02-wallet-scoring/internal/proto/geyser.pb.go that a stream of transactions
-- sends. A pointer that is nil is `none`.
pub mod Repeated
pub mod MessageHeader
pub mod CompiledInstruction
pub mod TransactionStatusMeta
pub mod Message
pub mod Transaction
pub mod TransactionInfo
pub mod SubscribeUpdateTransaction
pub mod SubscribeUpdate
