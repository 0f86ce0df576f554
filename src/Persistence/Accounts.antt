-- ===== src/Persistence/Accounts.antt =====
-- `accountRepo` of internal/infrastructure/persistence/repositories.go.
pub mod Table
pub mod Laws
use wealthfolio_connect_self.Prelude.{
  ℕ, String, Bool, true, false, Option, none, some, List, [], ◌∷◌, map, is_empty, is_some, ◌==◌,
  if◌then◌else◌,
}
use wealthfolio_connect_self.Prelude.Int.{ℤ, pos}
use wealthfolio_connect_self.Prelude.Map.{Map, insert}
use wealthfolio_connect_self.Domain.Brokerage.{Account}
use wealthfolio_connect_self.Domain.Error.{
  Error, not_found, wrapped, Fetched, ok, failed, Action, done, wrap, wrapping, ◌>>◌,
}
use wealthfolio_connect_self.Sync.Ports.{ActivitySyncProgress}
use wealthfolio_connect_self.Persistence.AccountModel.{
  AccountPo, account_to_domain, account_from_domain,
}

-- What `Updates` assigns to a column; `earliest t` is the expression that keeps a date which is not
-- after `t`, and is `t` otherwise.
pub data Value : Type 0 where
  offset : ℤ → Value
  time : ℕ → Value
  flag : Bool → Value
  earliest : ℕ → Value

-- The calls of GORM on the table of the accounts: all rows by id, the row of an id if there is one,
-- an INSERT that updates the given columns of a row that is there, and an UPDATE of the row of an id,
-- with the number of rows that it met.
pub record AccountTable (F D : Type 0) : Type 0 where
  pub find : D → Fetched (List (AccountPo F))
  pub first : String → D → Fetched (Option (AccountPo F))
  pub create : List String → AccountPo F → Action D
  pub updates : String → Map Value → D → Fetched ℕ × D

abbrev pub account_conflict_columns : List String
account_conflict_columns =
    "name" ∷ "account_number" ∷ "type" ∷ "raw_type" ∷ "currency" ∷ "balance_total"
    ∷ "balance_currency" ∷ "brokerage_authorization" ∷ "institution_name" ∷ "shared_with_household"
    ∷ "is_paper" ∷ "status" ∷ "owner_user_id" ∷ "owner_full_name" ∷ "owner_email" ∷ []

-- The three steps of `UpdateActivitySyncProgress` that fill the map.
abbrev pub add_first_date : Option ℕ → Map Value → Map Value
add_first_date none m = m
add_first_date (some t) m = insert "first_tx_date" (earliest t) m

abbrev pub add_completed : Option ℕ → Map Value → Map Value
add_completed none m = m
add_completed (some t) m =
    insert "activity_sync_offset" (offset (pos 0))
      (insert "initial_tx_sync_done" (flag true) (insert "last_tx_sync" (time t) m))

unfoldable pub progress_updates : ActivitySyncProgress → Map Value
progress_updates progress = add_completed progress.completed_at (
    add_first_date progress.first_transaction_date
      (("activity_sync_offset", offset progress.next_offset) ∷ []))

abbrev pub add_tx_sync : Option ℕ → Map Value → Map Value
add_tx_sync none m = m
add_tx_sync (some t) m =
    insert "initial_tx_sync_done" (flag true) (insert "last_tx_sync" (time t) m)

abbrev pub add_holdings_sync : Option ℕ → Map Value → Map Value
add_holdings_sync none m = m
add_holdings_sync (some t) m =
    insert "initial_holdings_done" (flag true) (insert "last_holdings_sync" (time t) m)

unfoldable pub status_updates : Option ℕ → Option ℕ → Map Value
status_updates tx_sync holdings_sync = add_holdings_sync holdings_sync (add_tx_sync tx_sync [])

-- `Updates(...)` with the check of `RowsAffected`, and without it.
abbrev pub met : {D : Type 0} → String → Fetched ℕ × D → Option Error × D
met text (ok n, d) = (if n == 0 then some not_found else none, d)
met text (failed e, d) = (some (wrapped text e), d)

abbrev pub unchecked : {D : Type 0} → String → Fetched ℕ × D → Option Error × D
unchecked text (ok n, d) = (none, d)
unchecked text (failed e, d) = (some (wrapped text e), d)

abbrev pub one_row : {F : Type 0} → Fetched (Option (AccountPo F)) → Fetched (Account F)
one_row (ok none) = failed not_found
one_row (ok (some row)) = ok (account_to_domain row)
one_row (failed e) = failed (wrapped "accounts get" e)

abbrev pub all_rows : {F : Type 0} → Fetched (List (AccountPo F)) → Fetched (List (Account F))
all_rows (ok rows) = ok (map account_to_domain rows)
all_rows (failed e) = failed (wrapped "accounts list" e)

module _ {F D : Type 0} (db : AccountTable F D) where
  unfoldable pub list_accounts : D → Fetched (List (Account F))
  list_accounts d = all_rows (db.find d)

  unfoldable pub get_account : String → D → Fetched (Account F)
  get_account id d = one_row (db.first id d)

  unfoldable pub update_sync_status : String → Option ℕ → Option ℕ → Action D
  update_sync_status id tx_sync holdings_sync d =
      let m = status_updates tx_sync holdings_sync in
      if is_empty m then (none, d) else unchecked "account sync status" (db.updates id m d)

  unfoldable pub upsert_account : ℕ → Account F → Action D
  upsert_account now a =
      wrapping "account upsert" (db.create account_conflict_columns (account_from_domain now a))
      >> wrapping "account upsert sync status"
          (update_sync_status a.id a.last_tx_sync a.last_holdings_sync)

  unfoldable pub update_activity_sync_progress : String → ActivitySyncProgress → Action D
  update_activity_sync_progress id progress d =
      met "account activity sync progress" (db.updates id (progress_updates progress) d)

  unfoldable pub set_sync_enabled : String → Bool → Action D
  set_sync_enabled id enabled d =
      met "account set sync_enabled" (db.updates id (("sync_enabled", flag enabled) ∷ []) d)
