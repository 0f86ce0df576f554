-- ===== src/Sync.antt =====
-- The sync engine: the ports of internal/domain/sync/ports.go and the application service of
-- internal/application/sync/service.go, over the repository interfaces of
-- internal/domain/repository/repository.go.
pub mod Ports
pub mod Persist
pub mod Plan
pub mod Engine
pub mod Laws
pub mod Workers
mod Tests
