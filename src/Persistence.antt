-- ===== src/Persistence.antt =====
-- internal/infrastructure/persistence: the rows of the tables and the repositories.
pub mod ActivityModel
pub mod Activities
pub mod AccountModel
pub mod Accounts
pub mod Connections
pub mod Holdings
pub mod Repositories
pub mod Steam
mod Tests
