-- ===== src/Queries/Preference.antt =====
-- The sync preference from `AccountService.SetSyncEnabled` of internal/application/brokerage/service.go
-- to the rows of internal/infrastructure/persistence/repositories.go.
use wealthfolio_connect_self.Prelude.{
  ℕ, String, ◌≡◌, refl, ◌∙◌, Bool, true, Option, none, some, List, [], ◌∷◌, is_some, arith, inl,
  inr, Option-cases,
}
use wealthfolio_connect_self.Domain.Brokerage.{Connection, Account, Activity, Holdings}
use wealthfolio_connect_self.Domain.Error.{Fetched, Fetched-cases}
use wealthfolio_connect_self.Persistence.AccountModel.{AccountPo, account_to_domain}
use wealthfolio_connect_self.Persistence.Accounts.{
  AccountTable, list_accounts, get_account, upsert_account, set_sync_enabled,
}
use wealthfolio_connect_self.Persistence.Accounts.Table.{IsTable}
use wealthfolio_connect_self.Persistence.Accounts.Laws.{
  owned, upsert_account-owned, set_sync_enabled-row,
}
use wealthfolio_connect_self.Queries.{answer, ActivityFilter, Stores, find_account, choose_sync}

-- The stores of the services with the repository of the accounts.
unfoldable pub stores_of :
    {F D : Type 0}
    → AccountTable F D
    → (D → Fetched (List Connection))
    → (ActivityFilter → D → Fetched (List (Activity F) × ℕ))
    → (String → D → Fetched (Holdings F))
    → Stores F D
stores_of db connections activities holdings = record {
  list_connections = connections;
  list_accounts = list_accounts db;
  get_account = get_account db;
  set_sync_enabled = set_sync_enabled db;
  list_activities = activities;
  get_latest = holdings;
}

-- The upserts of later syncs, each at its time.
pub upsert_all : {F D : Type 0} → AccountTable F D → List (ℕ × Account F) → D → D
upsert_all db [] d = d
upsert_all db ((now, a) ∷ writes) d = upsert_all db writes (upsert_account db now a d).1

module _ {F D : Type 0} (db : AccountTable F D) (table : IsTable db) where
  owned-present :
      (before after : Option (AccountPo F))
      → is_some before ≡ true
      → owned after ≡ owned before
      → is_some after ≡ true
  owned-present before after h k = ground (arith, h, k)

  upsert_all-owned :
      (writes : List (ℕ × Account F)) (d : D) (id : String)
      → is_some (table.row id d) ≡ true
      → owned (table.row id (upsert_all db writes d)) ≡ owned (table.row id d)
  unfolding upsert_all
  upsert_all-owned [] d id stored = refl
  upsert_all-owned ((now, a) ∷ writes) d id stored =
      let kept = upsert_account-owned db table now a d id stored in
      upsert_all-owned writes (upsert_account db now a d).1 id
        (owned-present (table.row id d) (table.row id (upsert_account db now a d).1) stored kept)
      ∙ kept

  abbrev pub enabled_of : Option (AccountPo F) → Option Bool
  enabled_of none = none
  enabled_of (some row) = some row.sync_enabled

  enabled-owned :
      (before after : Option (AccountPo F))
      → owned after ≡ owned before
      → enabled_of after ≡ enabled_of before
  enabled-owned before after h = ground (arith, h)

  -- The preference that a user sets is the one that the service reports back, and is still in the
  -- row after any upserts of later syncs, of whatever accounts and whether they succeed or fail.
  -- The database inserts a row with the defaults of its columns, updates the columns that a
  -- statement names, and changes nothing where a statement fails.
  pub choose_sync-Kept :
      (connections : D → Fetched (List Connection))
      (activities : ActivityFilter → D → Fetched (List (Activity F) × ℕ))
      (holdings : String → D → Fetched (Holdings F)) (id : String) (enabled : Bool) (d : D)
      (acc : Account F) (writes : List (ℕ × Account F))
      → (choose_sync (stores_of db connections activities holdings) id enabled d).0 ≡ answer acc
      → (acc.sync_enabled ≡ enabled)
        × (enabled_of (
              table.row id (
                upsert_all db writes
                  (choose_sync (stores_of db connections activities holdings) id enabled d).1))
            ≡ some enabled)
  unfolding choose_sync stores_of find_account get_account account_to_domain
  choose_sync-Kept connections activities holdings id enabled d acc writes h =
      let after_call = (set_sync_enabled db id enabled d).1 in
      elim (Option-cases (set_sync_enabled db id enabled d).0) [
        | inr (e, refusal) ↦ ground (arith, h, refusal)
        | inl fine ↦
            let (old, before, stored) = set_sync_enabled-row db table id enabled d fine in
            elim (Fetched-cases (db.first id after_call)) [
              | inr (e, missed) ↦ ground (arith, h, fine, missed)
              | inl (found, fetched) ↦ ground (
                arith,
                h,
                fine,
                fetched,
                stored,
                table.first-row id after_call found fetched,
                upsert_all-owned writes after_call id,
                enabled-owned (table.row id after_call)
                    (table.row id (upsert_all db writes after_call)),
              )
            ]
      ]
