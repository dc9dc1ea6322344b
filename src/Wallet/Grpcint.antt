-- ===== src/Wallet/Grpcint.antt =====
-- The messages of projects/02-wallet-scoring/internal/grpcint/aggregator.pb.go. A float is the number
-- that its bits make.
pub mod GetWalletStatsRequest
pub mod WalletStatsResponse
pub mod GetTopWalletsRequest
pub mod TopWalletsResponse
pub mod RefreshWalletRequest
pub mod Codec
