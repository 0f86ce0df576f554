-- ===== src/Queries.antt =====
-- internal/application/brokerage: the services behind the read endpoints and the sync preference.
pub mod Paging
pub mod Preference
mod Tests
use wealthfolio_connect_self.Prelude.{
  ℕ, ◌+◌, String, Bool, true, false, Option, List, [], ltb, ◌==◌, length, if◌then◌else◌, none, some,
}
use wealthfolio_connect_self.Prelude.Int.{ℤ, pos, negsuc, pos_part}
use wealthfolio_connect_self.Domain.Brokerage.{Connection, Account, Activity, Holdings}
use wealthfolio_connect_self.Domain.Error.{
  Error, is_not_found, wrapped, Fetched, ok, failed, Action,
}

-- What a service returns: a value, `ErrAccountNotFound`, or another error.
pub data Answer (A : Type 0) : Type 0 where
  answer : A → Answer A
  account_not_found : Answer A
  failure : Error → Answer A

pub record ActivityQuery : Type 0 where
  pub account_id : String
  pub start_date : Option ℕ
  pub end_date : Option ℕ
  pub offset : ℤ
  pub limit : ℤ

pub record PaginatedActivities (F : Type 0) : Type 0 where
  pub items : List (Activity F)
  pub total : ℕ
  pub offset : ℕ
  pub limit : ℕ
  pub has_more : Bool

-- `repository.ActivityFilter`, with the clamped paging.
pub record ActivityFilter : Type 0 where
  pub account_id : String
  pub start_date : Option ℕ
  pub end_date : Option ℕ
  pub offset : ℕ
  pub limit : ℕ

pub record HoldingsResult (F : Type 0) : Type 0 where
  pub account : Account F
  pub holdings : Holdings F

-- The repositories, as far as the services call them.
pub record Stores (F D : Type 0) : Type 0 where
  pub list_connections : D → Fetched (List Connection)
  pub list_accounts : D → Fetched (List (Account F))
  pub get_account : String → D → Fetched (Account F)
  pub set_sync_enabled : String → Bool → Action D
  pub list_activities : ActivityFilter → D → Fetched (List (Activity F) × ℕ)
  pub get_latest : String → D → Fetched (Holdings F)

abbrev pub default_activity_limit : ℕ
default_activity_limit = 1000

abbrev pub max_activity_limit : ℕ
max_activity_limit = 5000

-- The two tests of `q.Limit`, and the one of `q.Offset`.
unfoldable pub clamp_limit : ℤ → ℕ
clamp_limit limit =
    let limit' = if pos_part limit == 0 then default_activity_limit else pos_part limit in
    if ltb max_activity_limit limit' then max_activity_limit else limit'

abbrev pub clamp_offset : ℤ → ℕ
clamp_offset offset = pos_part offset

unfoldable pub filter_of : ActivityQuery → ActivityFilter
filter_of q = record {
  account_id = q.account_id;
  start_date = q.start_date;
  end_date = q.end_date;
  offset = clamp_offset q.offset;
  limit = clamp_limit q.limit;
}

-- `ErrAccountNotFound` for a missing row, else the error with its context.
abbrev pub refused : {A : Type 0} → String → Error → Answer A
refused text e = if is_not_found e then account_not_found else failure (wrapped text e)

abbrev pub wrapped_list : {A : Type 0} → String → Fetched A → Answer A
wrapped_list text (ok a) = answer a
wrapped_list text (failed e) = failure (wrapped text e)

abbrev pub found_account : {F : Type 0} → String → Fetched (Account F) → Answer (Account F)
found_account text (ok acc) = answer acc
found_account text (failed e) = refused text e

module _ {F : Type 0} where
  abbrev pub page_of :
      ActivityFilter → Fetched (List (Activity F) × ℕ) → Answer (PaginatedActivities F)
  page_of f (failed e) = failure (wrapped "activities: list" e)
  page_of f (ok (items, total)) = answer (record {
    items = items;
    total = total;
    offset = f.offset;
    limit = f.limit;
    has_more = ltb (f.offset + length items) total;
  })

  abbrev pub empty_holdings : ℕ → String → Holdings F
  empty_holdings now account_id = record {
    account_id = account_id;
    balances = [];
    positions = [];
    option_positions = [];
    captured_at = now;
    partial = false;
  }

  abbrev pub holdings_result :
      ℕ → String → Account F → Fetched (Holdings F) → Answer (HoldingsResult F)
  holdings_result now account_id acc (ok h) = answer (record { account = acc; holdings = h })
  holdings_result now account_id acc (failed e) =
      if is_not_found e
      then answer (record { account = acc; holdings = empty_holdings now account_id })
      else failure (wrapped "holdings: get" e)

module _ {F D : Type 0} (r : Stores F D) where
  -- `ConnectionService.List`, `AccountService.List`, `AccountService.Get`
  unfoldable pub connection_list : D → Answer (List Connection)
  connection_list d = wrapped_list "connections: list" (r.list_connections d)

  unfoldable pub account_list : D → Answer (List (Account F))
  account_list d = wrapped_list "accounts: list" (r.list_accounts d)

  unfoldable pub find_account : String → D → Answer (Account F)
  find_account id d = found_account "accounts: get" (r.get_account id d)

  abbrev pub then_account : String → Option Error × D → Answer (Account F) × D
  then_account id (none, d) = (find_account id d, d)
  then_account id (some e, d) = (refused "accounts: set sync_enabled" e, d)

  -- `AccountService.SetSyncEnabled`
  unfoldable pub choose_sync : String → Bool → D → Answer (Account F) × D
  choose_sync id enabled d = then_account id (r.set_sync_enabled id enabled d)

  -- `ActivityService.List`
  unfoldable pub list : ActivityQuery → D → Answer (PaginatedActivities F)
  list q d = elim (r.get_account q.account_id d) [
    | failed e ↦ refused "activities: account lookup" e
    | ok _ ↦ page_of (filter_of q) (r.list_activities (filter_of q) d)
  ]

  -- `HoldingService.Get`, at the clock's reading `now`.
  unfoldable pub get_holdings : ℕ → String → D → Answer (HoldingsResult F)
  get_holdings now account_id d = elim (r.get_account account_id d) [
    | failed e ↦ refused "holdings: account lookup" e
    | ok acc ↦ holdings_result now account_id acc (r.get_latest account_id d)
  ]
