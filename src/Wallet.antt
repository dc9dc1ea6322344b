-- ===== src/Wallet.antt =====
-- projects/02-wallet-scoring: the messages between its services and of the stream of transactions, and
-- the decoding of transactions.
pub mod ProtoParser
pub mod ProtoBuilder
pub mod Grpcint
pub mod Geyser
pub mod Solana
mod Tests
