-- ===== src/Persistence/Repositories.antt =====
-- The repositories of internal/infrastructure/persistence behind the ports that the sync engine calls.
use wealthfolio_connect_self.Prelude.{
  ℕ, String, ◌≡◌, refl, ap, true, false, Option, none, some, List, [], ◌∷◌, str_eq, if◌then◌else◌,
  arith, inl, inr, length,
}
use wealthfolio_connect_self.Prelude.Time.{is_zero}
use wealthfolio_connect_self.Domain.Brokerage.{Account, Activity, Holdings}
use wealthfolio_connect_self.Domain.Error.{ok, Action, Fetched-cases}
use wealthfolio_connect_self.Sync.Ports.{BrokerSnapshot, Repositories}
use wealthfolio_connect_self.Sync.Persist.{connections_of, persist_connections, persist_snapshot}
use wealthfolio_connect_self.Sync.Plan.{
  Write, connection, account, holdings, holdings_synced, activities, retract, transactions_synced,
  perform,
}
use wealthfolio_connect_self.Sync.Plan.Disabled.{
  touches, listed, IsFramed, persist_snapshot_spares_disabled,
}
use wealthfolio_connect_self.Persistence.ActivityModel.{ActivityPo}
use wealthfolio_connect_self.Persistence.AccountModel.{
  AccountPo, account_to_domain, account_from_domain,
}
use wealthfolio_connect_self.Persistence.Activities.{
  ActivityTable, create_all, known_identities, rows_of, chunks_of, upsert_batch, delete_records,
}
use wealthfolio_connect_self.Persistence.Accounts.{
  AccountTable, account_conflict_columns, one_row, get_account, update_sync_status, upsert_account,
  update_activity_sync_progress,
}
use wealthfolio_connect_self.Persistence.Accounts.Table.{IsTable}
use wealthfolio_connect_self.Persistence.Accounts.Laws.{update_sync_status-row}
use wealthfolio_connect_self.Persistence.Connections.{
  ConnectionTable, ConnectionPo, connection_conflict_columns, connection_from_domain,
  upsert_connection,
}
use wealthfolio_connect_self.Persistence.Holdings.{
  HoldingsJson, HoldingsTable, HoldingsSnapshotPo, holdings_conflict_columns, holdings_from_domain,
  replace_holdings,
}

-- The database, with the reading of the clock in each of its states.
pub record Database (J F D : Type 0) : Type 0 where
  pub clock : D → ℕ
  pub zero_float : F
  pub json : HoldingsJson J F
  pub connections : ConnectionTable D
  pub accounts : AccountTable F D
  pub activities : ActivityTable F D
  pub holdings : HoldingsTable J D

unfoldable pub repositories_of : {J F D : Type 0} → Database J F D → Repositories F D
repositories_of db = record {
  upsert_connection = λ c d. upsert_connection db.connections (db.clock d) c d;
  get_account = get_account db.accounts;
  upsert_account = λ a d. upsert_account db.accounts (db.clock d) a d;
  update_sync_status = update_sync_status db.accounts;
  update_activity_sync_progress = update_activity_sync_progress db.accounts;
  upsert_activities = upsert_batch db.zero_float db.activities;
  delete_activities = delete_records db.zero_float db.activities;
  replace_holdings = λ h d. replace_holdings db.json db.holdings (db.clock d) h d;
}

-- The statements on the other tables leave the rows of the accounts as they are.
pub record IsIsolated {J F D : Type 0} (db : Database J F D) (table : IsTable db.accounts)
    : Type 0 where
  pub connections :
      (columns : List String) (po : ConnectionPo) (d : D) (id : String)
      → table.row id (db.connections.create columns po d).1 ≡ table.row id d
  pub creates :
      (rows : List (ActivityPo F)) (d : D) (id : String)
      → table.row id (db.activities.create rows d).1 ≡ table.row id d
  pub deletes :
      (account_id : String) (ids : List String) (d : D) (id : String)
      → table.row id (db.activities.delete account_id ids d).1 ≡ table.row id d
  pub transactions :
      (run : Action D) (d : D) (id : String)
      → ((e : D) → table.row id (run e).1 ≡ table.row id e)
      → table.row id (db.activities.transaction run d).1 ≡ table.row id d
  pub holdings :
      (columns : List String) (po : HoldingsSnapshotPo J) (d : D) (id : String)
      → table.row id (db.holdings.create columns po d).1 ≡ table.row id d

module _ {J F D : Type 0} (db : Database J F D) (table : IsTable db.accounts)
    (isolated : IsIsolated db table) (j : String) where
  create_all-row :
      (chunks : List (List (ActivityPo F))) (d : D)
      → table.row j (create_all db.zero_float db.activities chunks d).1 ≡ table.row j d
  unfolding create_all
  create_all-row [] d = refl
  create_all-row (chunk ∷ chunks) d =
      ground
        (arith, isolated.creates chunk d j, create_all-row chunks (db.activities.create chunk d).1)

  upsert_batch-row :
      (account_id : String) (items : List (Activity F)) (d : D)
      → table.row j (upsert_batch db.zero_float db.activities account_id items d).1 ≡ table.row j d
  unfolding upsert_batch
  upsert_batch-row account_id items d =
      elim (Fetched-cases (known_identities db.zero_float db.activities account_id items d)) [
        | inr (e, lost) ↦ ground (arith, lost)
        | inl (known, found) ↦
            let rows = rows_of db.zero_float account_id known items in
            let chunks = chunks_of (length rows) rows 0 in
            ground (
              arith,
              found,
              isolated.transactions (create_all db.zero_float db.activities chunks) d j
                  (create_all-row chunks),
            )
      ]

  replace_holdings-row :
      (now : ℕ) (h : Holdings F) (d : D)
      → table.row j (replace_holdings db.json db.holdings now h d).1 ≡ table.row j d
  unfolding replace_holdings
  replace_holdings-row now h d =
      let stamped = if is_zero h.captured_at then record h { captured_at = now } else h in
      elim (Fetched-cases (holdings_from_domain db.json now stamped)) [
        | inr (e, lost) ↦ ground (arith, lost)
        | inl (po, encoded) ↦
            ground (arith, encoded, isolated.holdings holdings_conflict_columns po d j)
      ]

  account_write-row :
      (now : ℕ) (a : Account F) (d : D)
      → str_eq a.id j ≡ false
      → table.row j (upsert_account db.accounts now a d).1 ≡ table.row j d
  unfolding upsert_account account_from_domain
  account_write-row now a d other =
      let row = account_from_domain now a in
      ground (
        arith,
        other,
        table.create-row account_conflict_columns row d j,
        update_sync_status-row db.accounts table a.id j a.last_tx_sync a.last_holdings_sync
            (db.accounts.create account_conflict_columns row d).1,
      )

  -- A write to another account leaves the row of `j` alone.
  repositories_of-others :
      (w : Write F) (d : D)
      → touches F j w ≡ false
      → table.row j (perform (repositories_of db) w d).1 ≡ table.row j d
  unfolding repositories_of upsert_connection delete_records
  repositories_of-others (connection c) d h = ground (
    arith,
    isolated.connections connection_conflict_columns (connection_from_domain (db.clock d) c) d j,
  )
  repositories_of-others (account a) d h = account_write-row (db.clock d) a d h
  repositories_of-others (holdings h) d other = replace_holdings-row (db.clock d) h d
  repositories_of-others (holdings_synced id t) d h =
      ground (arith, h, update_sync_status-row db.accounts table id j none (some t) d)
  repositories_of-others (activities id items) d h = upsert_batch-row id items d
  repositories_of-others (retract id ids) d h = ground (arith, isolated.deletes id ids d j)
  repositories_of-others (transactions_synced id t) d h =
      ground (arith, h, update_sync_status-row db.accounts table id j (some t) none d)

  repositories_of-IsFramed : IsFramed (repositories_of db) j (table.row j)
  unfolding repositories_of upsert_connection
  repositories_of-IsFramed = record {
    connections = λ c d. repositories_of-others (connection c) d refl;
    others = repositories_of-others;
  }

  -- With the repositories of the program, persisting a snapshot leaves the row of an account that
  -- it lists as it is, if the row is read with `sync_enabled` false. The statements on the
  -- accounts insert a row with the defaults of its columns, update the columns that they name, and
  -- change nothing where they fail; those on the other tables, and a commit hook, leave the
  -- accounts alone.
  pub persist_snapshot-disabled_row :
      (now : ℕ) (committed : Option (D → D)) (snap : BrokerSnapshot F) (d : D) (row : AccountPo F)
      → ((f : D → D) → committed ≡ some f → (e : D) → table.row j (f e) ≡ table.row j e)
      → listed F j snap.accounts ≡ true
      → db.accounts.first j (persist_connections (repositories_of db) (connections_of snap) d).1
        ≡ ok (some row)
      → row.sync_enabled ≡ false
      → table.row j (persist_snapshot (repositories_of db) now committed snap d).1 ≡ table.row j d
  unfolding repositories_of get_account account_to_domain
  persist_snapshot-disabled_row now committed snap d row quiet here read off =
      persist_snapshot_spares_disabled (repositories_of db) j (table.row j) repositories_of-IsFramed
        now committed snap d (account_to_domain row) quiet here (ap one_row read) off
