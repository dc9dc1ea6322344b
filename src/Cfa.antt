-- ===== src/Cfa.antt =====
-- projects/03-cfa-bonds: the settlement of bond trades.
pub mod Decimal
pub mod Models
pub mod Repo
pub mod Settlement
pub mod Maturity
mod Tests
