-- ===== src/Sync/Tests.antt =====
-- Concrete inputs of the theorems about the sync engine: a database that keeps, for each account,
-- its row, its holdings and the number of its activities.
use wealthfolio_connect_self.Prelude.{
  ℕ, String, ◌≡◌, ◌↔◌, refl, Bool, true, false, Option, none, some, List, [], ◌∷◌, map, arith,
  str_eq, if◌then◌else◌, All,
}
use mathlib.Core.List.{◌++◌}
use wealthfolio_connect_self.Prelude.Int.{pos}
use wealthfolio_connect_self.Prelude.Map.{Map, lookup, insert, lookup-insert}
use wealthfolio_connect_self.Domain.Brokerage.{Connection, Account, Holdings}
use wealthfolio_connect_self.Domain.Error.{not_found, Fetched, ok, failed, Action, done, ◌>>◌}
use wealthfolio_connect_self.Sync.Ports.{BrokerSnapshot, Repositories}
use wealthfolio_connect_self.Sync.Persist.{
  partial_accounts, connections_of, commit, persist_snapshot,
}
use wealthfolio_connect_self.Sync.Plan.{
  perform_all, persist_snapshot-plan, Write, connection, account, holdings, holdings_synced,
  activities, retract, transactions_synced, perform, plan,
}
use wealthfolio_connect_self.Sync.Plan.Disabled.{
  touches, IsFramed, persist_snapshot_spares_disabled,
}
use wealthfolio_connect_self.Sync.Plan.Partial.{Careful, plan-Careful}
use wealthfolio_connect_self.Sync.Plan.Order.{
  IsData, IsMark, acknowledge, plan_order, persist_snapshot-acknowledge,
}
use wealthfolio_connect_self.Sync.Workers.{
  syncing, begin_client, start, begun, here, later, begins, one_run_per_client,
}

-- An account with an identifier, a switch and a total; floats are natural numbers here.
abbrev row : String → Bool → ℕ → Account ℕ
row id on total = record {
  id = id;
  name = "";
  account_number = "";
  type = "CASH";
  raw_type = "";
  currency = "USD";
  balance_total = total;
  balance_currency = "USD";
  brokerage_authorization = "";
  institution_name = "";
  sync_enabled = on;
  shared_with_household = false;
  is_paper = false;
  status = "open";
  created_date = 1;
  last_tx_sync = some 7;
  last_holdings_sync = none;
  first_tx_date = none;
  initial_tx_sync_done = true;
  initial_holdings_done = false;
  activity_sync_offset = pos 0;
  owner_user_id = "";
  owner_full_name = "";
  owner_email = "";
}

abbrev broker : Connection
broker = record {
  id = "okx-conn";
  authorization_id = "";
  brokerage_name = "";
  brokerage_slug = "okx";
  display_name = "";
  logo_url = "";
  square_logo_url = "";
  disabled = false;
  name = "";
  status = "active";
  updated_at = 1;
}

abbrev holding : String → Bool → Holdings ℕ
holding id partial = record {
  account_id = id;
  balances = [];
  positions = [];
  option_positions = [];
  captured_at = 0;
  partial = partial;
}

-- The database: the number of writes to each account, over fixed rows.
abbrev Writes : Type 0
Writes = Map ℕ

count : Writes → String → Option ℕ
count d id = lookup id d

bump : String → Action Writes
bump id d = (none, insert id 1 d)

get : String → Writes → Fetched (Account ℕ)
get id d =
    if str_eq id "off"
    then ok (row "off" false 5)
    else if str_eq id "on"
    then ok (row "on" true 6)
    else failed not_found

abbrev repos : Repositories ℕ Writes
repos = record {
  upsert_connection = λ c. done;
  get_account = get;
  upsert_account = λ a. bump a.id;
  update_sync_status = λ id tx h. bump id;
  update_activity_sync_progress = λ id p. bump id;
  upsert_activities = λ id items. bump id;
  delete_activities = λ id ids. bump id;
  replace_holdings = λ h. bump h.account_id;
}

abbrev snapshot : BrokerSnapshot ℕ
snapshot = record {
  connection = broker;
  connections = [];
  accounts = row "off" true 50 ∷ row "on" true 60 ∷ [];
  holdings = holding "off" false ∷ holding "on" true ∷ [];
  activities = [];
  retracted_activities = ("on", "dust" ∷ []) ∷ ("off", "dust" ∷ []) ∷ [];
}

bump-count : (id j : String) (d : Writes) → str_eq id j ≡ false → count (bump id d).1 j ≡ count d j
unfolding count bump
bump-count id j d h = ground (arith, lookup-insert id j 1 d)

abbrev seen : Writes → Option ℕ
seen d = count d "off"

repos-IsFramed : IsFramed repos "off" seen
repos-IsFramed = record { connections = λ c d. refl; others = others }
  where
    others :
        (w : Write ℕ) (d : Writes) → touches ℕ "off" w ≡ false → seen (perform repos w d).1 ≡ seen d
    others (connection c) d h = refl
    others (account a) d h = bump-count a.id "off" d h
    others (holdings x) d h = bump-count x.account_id "off" d h
    others (holdings_synced id t) d h = bump-count id "off" d h
    others (activities id items) d h = bump-count id "off" d h
    others (retract id ids) d h = bump-count id "off" d h
    others (transactions_synced id t) d h = bump-count id "off" d h

persist_snapshot_spares_disabled_example :
    seen (persist_snapshot repos 9 none snapshot []).1 ≡ seen []
persist_snapshot_spares_disabled_example =
    persist_snapshot_spares_disabled repos "off" seen repos-IsFramed 9 none snapshot []
      (row "off" false 5) (λ f e. cc) refl (unfold get in refl) refl

plan-Careful_example :
    All (Careful repos [] (partial_accounts snapshot.holdings)) (plan repos 9 snapshot [])
plan-Careful_example = plan-Careful repos 9 snapshot []

plan_order_example :
    (front back : List (Write ℕ)) × (plan repos 9 snapshot [] ≡ front ++ back)
    × All IsData front
    × All IsMark back
plan_order_example = plan_order repos 9 snapshot []

persist_snapshot-acknowledge_example :
    persist_snapshot repos 9 (some (λ d. insert "cursor" 1 d)) snapshot []
    ≡ acknowledge (λ d. insert "cursor" 1 d) (persist_snapshot repos 9 none snapshot [])
persist_snapshot-acknowledge_example =
    persist_snapshot-acknowledge repos 9 (λ d. insert "cursor" 1 d) snapshot []

persist_snapshot-plan_example :
    persist_snapshot repos 9 none snapshot []
    ≡ (perform_all repos (map connection (connections_of snapshot))
          >> (λ d'. (perform_all repos (plan repos 9 snapshot d') >> commit repos none) d'))
        []
persist_snapshot-plan_example = persist_snapshot-plan repos 9 none snapshot []

one_run_per_client_example :
    ((w v : ℕ)
      → (begun start 3 "okx").phase w ≡ syncing "okx"
      → (begun start 3 "okx").phase v ≡ syncing "okx"
      → w ≡ v)
    × (((begin_client "okx" (begun start 3 "okx").running).0 ≡ false)
        ↔ ((w : ℕ) × ((begun start 3 "okx").phase w ≡ syncing "okx")))
one_run_per_client_example =
    one_run_per_client {s = begun start 3 "okx"} (later here (begins 3 "okx" refl)) "okx"
