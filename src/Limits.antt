-- ===== src/Limits.antt =====
-- The rate limits that the clients of the brokers keep.
pub mod Binance
pub mod SnapTrade
mod Tests
