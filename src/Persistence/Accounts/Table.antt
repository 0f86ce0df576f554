-- ===== src/Persistence/Accounts/Table.antt =====
-- What the database promises of the table of the accounts that
-- internal/infrastructure/persistence/repositories.go writes.
use wealthfolio_connect_self.Prelude.{
  ℕ, String, ◌≡◌, Option, none, some, List, [], ◌∷◌, ltb, str_eq, true, is_some, if◌then◌else◌,
}
use wealthfolio_connect_self.Prelude.Map.{Map}
use wealthfolio_connect_self.Domain.Error.{Error, ok, failed}
use wealthfolio_connect_self.Sync.Persist.{member}
use wealthfolio_connect_self.Persistence.AccountModel.{AccountPo}
use wealthfolio_connect_self.Persistence.Accounts.{
  Value, offset, time, flag, earliest, AccountTable,
}

abbrev pub earliest_of : ℕ → Option ℕ → Option ℕ
earliest_of t none = some t
earliest_of t (some held) = some (if ltb t held then t else held)

abbrev kept_option : (ℕ → ℕ) → Option ℕ → Option ℕ
kept_option kept none = none
kept_option kept (some t) = some (kept t)

module _ {F : Type 0} where
  -- `ON CONFLICT DO UPDATE SET column = excluded.column` for the given columns.
  unfoldable pub assign : List String → AccountPo F → AccountPo F → AccountPo F
  assign columns new old = record {
    id = if member "id" columns then new.id else old.id;
    name = if member "name" columns then new.name else old.name;
    account_number =
        if member "account_number" columns then new.account_number else old.account_number;
    type = if member "type" columns then new.type else old.type;
    raw_type = if member "raw_type" columns then new.raw_type else old.raw_type;
    currency = if member "currency" columns then new.currency else old.currency;
    balance_total = if member "balance_total" columns then new.balance_total else old.balance_total;
    balance_currency =
        if member "balance_currency" columns then new.balance_currency else old.balance_currency;
    brokerage_authorization =
        if member "brokerage_authorization" columns
        then new.brokerage_authorization
        else old.brokerage_authorization;
    institution_name =
        if member "institution_name" columns then new.institution_name else old.institution_name;
    sync_enabled = if member "sync_enabled" columns then new.sync_enabled else old.sync_enabled;
    shared_with_household =
        if member "shared_with_household" columns
        then new.shared_with_household
        else old.shared_with_household;
    is_paper = if member "is_paper" columns then new.is_paper else old.is_paper;
    status = if member "status" columns then new.status else old.status;
    created_date = if member "created_date" columns then new.created_date else old.created_date;
    last_tx_sync = if member "last_tx_sync" columns then new.last_tx_sync else old.last_tx_sync;
    last_holdings_sync =
        if member "last_holdings_sync" columns
        then new.last_holdings_sync
        else old.last_holdings_sync;
    first_tx_date = if member "first_tx_date" columns then new.first_tx_date else old.first_tx_date;
    initial_tx_sync_done =
        if member "initial_tx_sync_done" columns
        then new.initial_tx_sync_done
        else old.initial_tx_sync_done;
    initial_holdings_done =
        if member "initial_holdings_done" columns
        then new.initial_holdings_done
        else old.initial_holdings_done;
    activity_sync_offset =
        if member "activity_sync_offset" columns
        then new.activity_sync_offset
        else old.activity_sync_offset;
    owner_user_id = if member "owner_user_id" columns then new.owner_user_id else old.owner_user_id;
    owner_full_name =
        if member "owner_full_name" columns then new.owner_full_name else old.owner_full_name;
    owner_email = if member "owner_email" columns then new.owner_email else old.owner_email;
  }

  module _ (kept : ℕ → ℕ) where
    -- What an INSERT stores. GORM writes the default of the tag in place of a zero value: `true` for
    -- `sync_enabled`, "open" for `status`; the other defaults are the zero values themselves. `kept`
    -- is what a timestamp column keeps of a time.
    unfoldable pub inserted : AccountPo F → AccountPo F
    inserted new = record new {
      sync_enabled = true;
      status = if str_eq new.status "" then "open" else new.status;
      created_date = kept new.created_date;
      last_tx_sync = kept_option kept new.last_tx_sync;
      last_holdings_sync = kept_option kept new.last_holdings_sync;
      first_tx_date = kept_option kept new.first_tx_date;
    }

    -- `SET column = value` for the columns that the program updates.
    unfoldable pub set_column : String → Value → AccountPo F → AccountPo F
    set_column column (offset n) row =
        if str_eq column "activity_sync_offset"
        then record row { activity_sync_offset = n }
        else row
    set_column column (time t) row =
        if str_eq column "last_tx_sync"
        then record row { last_tx_sync = some (kept t) }
        else if str_eq column "last_holdings_sync"
        then record row { last_holdings_sync = some (kept t) }
        else row
    set_column column (flag b) row =
        if str_eq column "initial_tx_sync_done"
        then record row { initial_tx_sync_done = b }
        else if str_eq column "initial_holdings_done"
        then record row { initial_holdings_done = b }
        else if str_eq column "sync_enabled"
        then record row { sync_enabled = b }
        else row
    set_column column (earliest t) row =
        if str_eq column "first_tx_date"
        then record row { first_tx_date = earliest_of (kept t) row.first_tx_date }
        else row

    unfoldable pub set_columns : Map Value → AccountPo F → AccountPo F
    set_columns [] row = row
    set_columns ((column, value) ∷ m) row = set_columns m (set_column column value row)

    abbrev pub created : List String → AccountPo F → Option (AccountPo F) → AccountPo F
    created columns new none = inserted new
    created columns new (some old) = assign columns (inserted new) old

    abbrev pub updated : Map Value → Option (AccountPo F) → Option (AccountPo F)
    updated m none = none
    updated m (some old) = some (set_columns m old)

  abbrev pub rows_met : Option (AccountPo F) → ℕ
  rows_met none = 0
  rows_met (some _) = 1

-- The rows of the table, and what the statements do to them; a statement that fails changes nothing.
pub record IsTable {F D : Type 0} (db : AccountTable F D) : Type 0 where
  pub row : String → D → Option (AccountPo F)
  pub kept_time : ℕ → ℕ
  pub first-row :
      (id : String) (d : D) (found : Option (AccountPo F))
      → db.first id d ≡ ok found
      → found ≡ row id d
  pub create-row :
      (columns : List String) (new : AccountPo F) (d : D) (id : String)
      → row id (db.create columns new d).1 ≡ (
          if is_some (db.create columns new d).0
          then row id d
          else if str_eq new.id id
          then some (created kept_time columns new (row id d))
          else row id d)
  pub updates-row :
      (key : String) (m : Map Value) (d : D) (n : ℕ) (d' : D) (id : String)
      → db.updates key m d ≡ (ok n, d')
      → (row id d' ≡ (if str_eq key id then updated kept_time m (row id d) else row id d))
        × (n ≡ rows_met (row key d))
  pub updates-failed :
      (key : String) (m : Map Value) (d : D) (e : Error) (d' : D) (id : String)
      → db.updates key m d ≡ (failed e, d')
      → row id d' ≡ row id d
