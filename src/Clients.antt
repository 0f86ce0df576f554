-- ===== src/Clients.antt =====
-- The clients of the brokers, internal/infrastructure/clients.
pub mod Cex
mod Tests
