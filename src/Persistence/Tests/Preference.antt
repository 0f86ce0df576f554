-- ===== src/Persistence/Tests/Preference.antt =====
-- A preference of the user, and a sync that reports the account as enabled.
use wealthfolio_connect_self.Prelude.{ℕ, ◌≡◌, refl, false, some, [], ◌∷◌, List}
use wealthfolio_connect_self.Prelude.Map.{lookup, insert}
use wealthfolio_connect_self.Domain.Brokerage.{Account}
use wealthfolio_connect_self.Domain.Error.{ok, failed, not_found}
use wealthfolio_connect_self.Persistence.AccountModel.{account_to_domain}
use wealthfolio_connect_self.Persistence.Accounts.{set_sync_enabled, get_account}
use wealthfolio_connect_self.Persistence.Accounts.Table.{set_columns, set_column}
use wealthfolio_connect_self.Persistence.Tests.{
  account_table, account_table-IsTable, disabled_row, upstream, store,
}
use wealthfolio_connect_self.Queries.{choose_sync, find_account}
use wealthfolio_connect_self.Queries.Preference.{
  stores_of, upsert_all, enabled_of, choose_sync-Kept,
}

abbrev writes : List (ℕ × Account ℕ)
writes = (100, upstream) ∷ []

choose_sync-Kept_example :
    (false ≡ false)
    × (enabled_of account_table account_table-IsTable (
          account_table-IsTable.row "a1" (
            upsert_all account_table writes
              (choose_sync
                (stores_of account_table
                  (λ d. ok [])
                  (λ f d. ok ([], 0))
                  (λ id d. failed not_found))
                "a1"
                false
                store).1))
        ≡ some false)
unfolding account_to_domain choose_sync stores_of find_account get_account set_sync_enabled lookup
    insert set_columns set_column
choose_sync-Kept_example =
    choose_sync-Kept account_table account_table-IsTable (λ d. ok []) (λ f d. ok ([], 0))
      (λ id d. failed not_found) "a1" false store (account_to_domain disabled_row) writes refl
