-- ===== src/Persistence/Tests.antt =====
-- The repositories over a small database.
mod Batch
mod Stored
mod Preference
use wealthfolio_connect_self.Prelude.{
  ℕ, zero, suc, ◌+◌, ◌*◌, ◌/◌, ◌≤◌, ◌<◌, String, ◌≡◌, ◌≢◌, refl, Bool, true, false, ◌||◌, Option,
  none, some, List, [], ◌∷◌, map, str_eq, is_some, if◌then◌else◌, arith, eq_iff, All, length,
  Option-cases, inl, inr,
}
use mathlib.Core.List.{◌++◌}
use wealthfolio_connect_self.Prelude.Int.{ℤ, pos}
use wealthfolio_connect_self.Prelude.Map.{Map, lookup, insert, lookup-insert}
use wealthfolio_connect_self.Domain.Brokerage.{
  Connection, Account, Activity, Holdings, Balance, Position, OptionPosition,
}
use wealthfolio_connect_self.Domain.Error.{Error, foreign, Fetched, ok, failed, Action, done}
use wealthfolio_connect_self.Sync.Ports.{BrokerSnapshot, ActivitySyncProgress, Repositories}
use wealthfolio_connect_self.Sync.Persist.{
  persist_snapshot, persist_connections, connections_of, member,
}
use wealthfolio_connect_self.Persistence.AccountModel.{AccountPo, account_to_domain}
use wealthfolio_connect_self.Persistence.ActivityModel.{ActivityPo, or_custom}
use wealthfolio_connect_self.Persistence.ActivityModel.Convert.{
  activity_from_domain, activity_to_domain,
}
use wealthfolio_connect_self.Persistence.ActivityModel.RoundTrip.{
  kept_symbol, kept_option, activity_to_domain-activity_from_domain,
}
use wealthfolio_connect_self.Persistence.Activities.{
  ActivityTable, chunks_of, rows_of, stored_identities, upsert_batch, known_identities,
  fingerprints_of, create_all,
}
use wealthfolio_connect_self.Persistence.Activities.Review.{
  reconciled, canonical, flagged, reconciled-canonical,
}
use wealthfolio_connect_self.Persistence.Activities.Rows.{
  IsDistinct, find_row, last_row, rows_of-Faithful,
}
use wealthfolio_connect_self.Persistence.Activities.Chunks.{concat, chunks_of-Faithful}
use wealthfolio_connect_self.Persistence.Activities.Batch.{
  IsAtomic, upsert_batch-Atomic, reconciled_again,
}
use wealthfolio_connect_self.Persistence.Accounts.{
  AccountTable, Value, upsert_account, update_activity_sync_progress,
}
use wealthfolio_connect_self.Persistence.Accounts.Table.{
  IsTable, assign, set_columns, created, updated, rows_met,
}
use wealthfolio_connect_self.Persistence.Accounts.Laws.{
  owned, progressed, upsert_account-owned, update_activity_sync_progress-row,
}
use wealthfolio_connect_self.Persistence.Connections.{
  ConnectionTable, ConnectionPo, upsert_connection,
}
use wealthfolio_connect_self.Persistence.Holdings.{
  HoldingsSnapshotPo, HoldingsJson, HoldingsTable, Json, replace_holdings, get_latest,
  holdings_from_domain, holdings_to_domain,
}
use wealthfolio_connect_self.Persistence.Holdings.RoundTrip as RoundTrip
use wealthfolio_connect_self.Persistence.Holdings.RoundTrip.{at_precision, stored_holdings}
use wealthfolio_connect_self.Persistence.Repositories.{
  Database, IsIsolated, repositories_of, persist_snapshot-disabled_row,
}

data Blob : Type 0 where
  balances_blob : List (Balance ℕ) → Blob
  positions_blob : List (Position ℕ) → Blob
  options_blob : List (OptionPosition ℕ) → Blob

abbrev read_balances : Blob → Fetched (List (Balance ℕ))
read_balances (balances_blob x) = ok x
read_balances _ = failed (foreign "json")

abbrev read_positions : Blob → Fetched (List (Position ℕ))
read_positions (positions_blob x) = ok x
read_positions _ = failed (foreign "json")

abbrev read_options : Blob → Fetched (List (OptionPosition ℕ))
read_options (options_blob x) = ok x
read_options _ = failed (foreign "json")

abbrev codec : HoldingsJson Blob ℕ
codec = record {
  balances = record { marshal = λ x. ok (balances_blob x); unmarshal = read_balances };
  positions = record { marshal = λ x. ok (positions_blob x); unmarshal = read_positions };
  options = record { marshal = λ x. ok (options_blob x); unmarshal = read_options };
}

record Store : Type 0 where
  connections : List ConnectionPo
  rows : Map (AccountPo ℕ)
  activities : List (ActivityPo ℕ)
  snapshots : Map (HoldingsSnapshotPo Blob)

-- A timestamp keeps microseconds.
abbrev pub to_micro : ℕ → ℕ
to_micro t = t / 1000 * 1000

abbrev update_row : String → Map Value → Option (AccountPo ℕ) → Store → Fetched ℕ × Store
update_row key m none d = (ok 0, d)
update_row key m (some row) d =
    (ok 1, record d { rows = insert key (set_columns to_micro m row) d.rows })

abbrev account_table : AccountTable ℕ Store
account_table = record {
  find = λ d. ok [];
  first = λ id d. ok (lookup id d.rows);
  create = λ columns new d. (
    none,
    record d { rows = insert new.id (created to_micro columns new (lookup new.id d.rows)) d.rows },
  );
  updates = λ key m d. update_row key m (lookup key d.rows) d;
}

account_table-IsTable : IsTable account_table
account_table-IsTable = record {
  row = λ id d. lookup id d.rows;
  kept_time = to_micro;
  first-row = λ id d found h. ground (arith, h);
  create-row = λ columns new d id. ground (
    arith,
    eq_iff new.id id,
    lookup-insert new.id id (created to_micro columns new (lookup new.id d.rows)) d.rows,
  );
  updates-row = λ key m d n d' id h. elim (Option-cases (lookup key d.rows)) [
    | inl absent ↦ ground (arith, h, absent, eq_iff key id)
    | inr (row, stored) ↦
        ground (
          arith,
          h,
          stored,
          eq_iff key id,
          lookup-insert key id (set_columns to_micro m row) d.rows,
        )
  ];
  updates-failed = λ key m d e d' id h. elim (Option-cases (lookup key d.rows)) [
    | inl absent ↦ ground (arith, h, absent)
    | inr (row, stored) ↦ ground (arith, h, stored)
  ];
}

abbrev connection_table : ConnectionTable Store
connection_table = record {
  find = λ d. ok d.connections;
  create = λ columns po d. (none, record d { connections = po ∷ d.connections });
}

abbrev rolled_back : Store → Option Error × Store → Option Error × Store
rolled_back d (none, d') = (none, d')
rolled_back d (some e, d') = (some e, d)

abbrev activities : ActivityTable ℕ Store
activities = record {
  with_fingerprints = λ account_id fingerprints d. ok [];
  create = λ rows d. (none, record d { activities = d.activities ++ rows });
  delete = λ account_id ids d. (none, d);
  transaction = λ run d. rolled_back d (run d);
}

abbrev snapshots : HoldingsTable Blob Store
snapshots = record {
  first = λ id d. ok (lookup id d.snapshots);
  create = λ columns new d. (
    none,
    record d { snapshots = insert new.account_id (at_precision to_micro new) d.snapshots },
  );
}

abbrev database : Database Blob ℕ Store
database = record {
  clock = λ d. 100;
  zero_float = 0;
  json = codec;
  connections = connection_table;
  accounts = account_table;
  activities = activities;
  holdings = snapshots;
}

rolled_back-rows :
    (id : String) (d : Store) (p : Option Error × Store)
    → lookup id p.1.rows ≡ lookup id d.rows
    → lookup id (rolled_back d p).1.rows ≡ lookup id d.rows
rolled_back-rows id d (none, d') h = h
rolled_back-rows id d (some e, d') h = refl

database-IsIsolated : IsIsolated database account_table-IsTable
unfolding account_table-IsTable
database-IsIsolated = record {
  connections = λ columns po d id. refl;
  creates = λ rows d id. refl;
  deletes = λ account_id ids d id. refl;
  transactions = λ run d id h. rolled_back-rows id d (run d) (h d);
  holdings = λ columns po d id. refl;
}

abbrev disabled_row : AccountPo ℕ
disabled_row = record {
  id = "a1";
  name = "";
  account_number = "";
  type = "";
  raw_type = "";
  currency = "";
  balance_total = 7;
  balance_currency = "";
  brokerage_authorization = "";
  institution_name = "";
  sync_enabled = false;
  shared_with_household = false;
  is_paper = false;
  status = "open";
  created_date = 5;
  last_tx_sync = none;
  last_holdings_sync = none;
  first_tx_date = some 9;
  initial_tx_sync_done = false;
  initial_holdings_done = false;
  activity_sync_offset = pos 3;
  owner_user_id = "";
  owner_full_name = "";
  owner_email = "";
}

abbrev store : Store
store = record {
  connections = [];
  rows = ("a1", disabled_row) ∷ [];
  activities = [];
  snapshots = [];
}

abbrev no_connection : Connection
no_connection = record {
  id = "c1";
  authorization_id = "";
  brokerage_name = "b";
  brokerage_slug = "b";
  display_name = "";
  logo_url = "";
  square_logo_url = "";
  disabled = false;
  name = "";
  status = "";
  updated_at = 0;
}

abbrev upstream : Account ℕ
upstream = record (account_to_domain disabled_row) { sync_enabled = true; last_tx_sync = some 50 }

abbrev snapshot : BrokerSnapshot ℕ
snapshot = record {
  connection = no_connection;
  connections = [];
  accounts = upstream ∷ [];
  holdings = [];
  activities = [];
  retracted_activities = [];
}
