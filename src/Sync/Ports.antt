-- ===== src/Sync/Ports.antt =====
-- internal/domain/sync/ports.go, and the repository interfaces that the engine calls. `F` stands for
-- `float64` and `D` for everything behind the repositories.
use wealthfolio_connect_self.Prelude.{ℕ, String, Bool, Option, List}
use wealthfolio_connect_self.Prelude.Int.{ℤ}
use wealthfolio_connect_self.Prelude.Map.{Map}
use wealthfolio_connect_self.Domain.Brokerage.{Connection, Account, Activity, Holdings}
use wealthfolio_connect_self.Domain.Error.{Error, Fetched, Action}

-- The entries of the two maps stand in the order in which the engine ranges over them.
pub record BrokerSnapshot (F : Type 0) : Type 0 where
  pub connection : Connection
  pub connections : List Connection
  pub accounts : List (Account F)
  pub holdings : List (Holdings F)
  pub activities : Map (List (Activity F))
  pub retracted_activities : Map (List String)

pub record ActivitySyncState : Type 0 where
  pub account_id : String
  pub initial_sync_completed : Bool
  pub last_successful_sync : Option ℕ
  pub next_offset : ℤ

pub record ActivityPage (F : Type 0) : Type 0 where
  pub account_id : String
  pub items : List (Activity F)
  pub next_offset : ℤ
  pub complete : Bool
  pub first_transaction_date : Option ℕ

pub record ActivitySyncProgress : Type 0 where
  pub next_offset : ℤ
  pub first_transaction_date : Option ℕ
  pub completed_at : Option ℕ

-- A run of `StreamActivities`: it ends with an error or `nil`, or hands a page to the sink and goes
-- on with what the sink returned.
pub data Stream (F : Type 0) : Type 0 where
  ended : Option Error → Stream F
  page : ActivityPage F → (Option Error → Stream F) → Stream F

-- A broker client during one sync: what its fetch returns, its stream if it is a
-- `PagedActivityClient`, and what `SnapshotCommitted` does if it is a `SnapshotCommitter`.
pub record BrokerClient (F D : Type 0) : Type 0 where
  pub id : String
  pub fetched : BrokerSnapshot F
  pub fetch_error : Option Error
  pub stream_activities : Option (List ActivitySyncState → Stream F)
  pub snapshot_committed : Option (D → D)

-- `ConnectionRepository`, `AccountRepository`, `ActivityRepository` and `HoldingRepository`, as far
-- as the engine calls them.
pub record Repositories (F D : Type 0) : Type 0 where
  pub upsert_connection : Connection → Action D
  pub get_account : String → D → Fetched (Account F)
  pub upsert_account : Account F → Action D
  pub update_sync_status : String → Option ℕ → Option ℕ → Action D
  pub update_activity_sync_progress : String → ActivitySyncProgress → Action D
  pub upsert_activities : String → List (Activity F) → Action D
  pub delete_activities : String → List String → Action D
  pub replace_holdings : Holdings F → Action D
