-- ===== src/Domain.antt =====
-- The domain entities (internal/domain/brokerage/entities.go) and the errors of the ports.
pub mod Brokerage
pub mod Error
