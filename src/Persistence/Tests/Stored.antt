-- ===== src/Persistence/Tests/Stored.antt =====
-- Accounts and holdings that are stored and read back.
use wealthfolio_connect_self.Prelude.{ℕ, ◌≡◌, refl, true, false, none, some, [], ◌∷◌, arith}
use wealthfolio_connect_self.Prelude.Int.{pos}
use wealthfolio_connect_self.Prelude.Map.{lookup}
use wealthfolio_connect_self.Domain.Brokerage.{Holdings}
use wealthfolio_connect_self.Sync.Ports.{ActivitySyncProgress}
use wealthfolio_connect_self.Sync.Persist.{persist_snapshot, persist_connections, connections_of}
use wealthfolio_connect_self.Persistence.AccountModel.{account_to_domain}
use wealthfolio_connect_self.Persistence.Connections.{upsert_connection}
use wealthfolio_connect_self.Persistence.Holdings.RoundTrip as RoundTrip
use wealthfolio_connect_self.Persistence.Repositories.{
  repositories_of, persist_snapshot-disabled_row,
}
use wealthfolio_connect_self.Persistence.Tests.{
  account_table-IsTable, database, database-IsIsolated, disabled_row, store, snapshot, Store,
}

quiet :
    (f : Store → Store)
    → none ≡ some f
    → (e : Store) → account_table-IsTable.row "a1" (f e) ≡ account_table-IsTable.row "a1" e
quiet f h = ground arith

persist_snapshot-disabled_row_example :
    account_table-IsTable.row "a1"
      (persist_snapshot (repositories_of database) 100 none snapshot store).1
    ≡ account_table-IsTable.row "a1" store
unfolding account_to_domain repositories_of lookup persist_connections connections_of
    upsert_connection
persist_snapshot-disabled_row_example =
    persist_snapshot-disabled_row database account_table-IsTable database-IsIsolated "a1" 100 none
      snapshot store disabled_row quiet refl refl refl

abbrev checkpoint : ActivitySyncProgress
checkpoint = record { next_offset = pos 9; first_transaction_date = some 4; completed_at = none }

abbrev held : Holdings ℕ
held = record {
  account_id = "a1";
  balances =
      record { currency = record { code = "USD"; name = "" }; cash = 3; buying_power = 3 } ∷ [];
  positions = [];
  option_positions = [];
  captured_at = 0;
  partial = true;
}

abbrev latest : Holdings ℕ
latest = record held { captured_at = 5_000_000; partial = false }
