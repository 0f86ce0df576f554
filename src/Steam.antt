-- ===== src/Steam.antt =====
-- The Steam client of internal/infrastructure/clients/steam.
pub mod Model
pub mod Match
pub mod Resolve
pub mod Acquisitions
pub mod Lots
pub mod Cursors
pub mod Valuation
pub mod Names
pub mod Assemble
pub mod Snapshot
pub mod EmptyInventory
pub mod Walk
pub mod Persist
mod Tests
