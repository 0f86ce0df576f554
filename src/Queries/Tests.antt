-- ===== src/Queries/Tests.antt =====
-- The paging of a small account.
use wealthfolio_connect_self.Prelude.{
  ℕ, ◌≡◌, refl, false, none, some, List, [], ◌∷◌, length, take, drop, arith,
}
use wealthfolio_connect_self.Prelude.Int.{pos}
use wealthfolio_connect_self.Domain.Brokerage.{Account}
use wealthfolio_connect_self.Domain.Error.{ok, failed, not_found}
use wealthfolio_connect_self.Persistence.ActivityModel.{ActivityPo, no_row}
use wealthfolio_connect_self.Persistence.Activities.Listing.{ActivityQueries, IsAnswering}
use wealthfolio_connect_self.Queries.{ActivityQuery, Stores}
use wealthfolio_connect_self.Queries.Paging.{
  read_all, with_activities, matching_of, read_all-Complete,
}

abbrev holder : Account ℕ
holder = record {
  id = "a1";
  name = "";
  account_number = "";
  type = "";
  raw_type = "";
  currency = "";
  balance_total = 7;
  balance_currency = "";
  brokerage_authorization = "";
  institution_name = "";
  sync_enabled = false;
  shared_with_household = false;
  is_paper = false;
  status = "open";
  created_date = 5;
  last_tx_sync = none;
  last_holdings_sync = none;
  first_tx_date = some 9;
  initial_tx_sync_done = false;
  initial_holdings_done = false;
  activity_sync_offset = pos 3;
  owner_user_id = "";
  owner_full_name = "";
  owner_email = "";
}

abbrev stored_rows : List (ActivityPo ℕ)
stored_rows =
    record (no_row 0) { id = "x" }
    ∷ record (no_row 0) { id = "y" }
    ∷ record (no_row 0) { id = "z" }
    ∷ []

abbrev queries : ActivityQueries ℕ (List (ActivityPo ℕ))
queries = record {
  count = λ c d. ok (length d);
  find = λ c limit offset d. ok (take limit (drop offset d));
}

queries-IsAnswering : IsAnswering queries stored_rows
queries-IsAnswering = record {
  rows = λ c. stored_rows;
  counted = λ c. refl;
  found = λ c limit offset. refl;
}

abbrev stores : Stores ℕ (List (ActivityPo ℕ))
stores = record {
  list_connections = λ d. ok [];
  list_accounts = λ d. ok (holder ∷ []);
  get_account = λ id d. ok holder;
  set_sync_enabled = λ id enabled d. (none, d);
  list_activities = λ f d. failed not_found;
  get_latest = λ id d. failed not_found;
}

abbrev query : ActivityQuery
query = record {
  account_id = "a1";
  start_date = none;
  end_date = none;
  offset = pos 0;
  limit = pos 2;
}

read_all-Complete_example :
    read_all (with_activities stores queries) query 4 0 stored_rows
    ≡ some (matching_of stores queries query stored_rows holder refl queries-IsAnswering)
unfolding queries-IsAnswering
read_all-Complete_example =
    read_all-Complete stores queries query stored_rows holder refl queries-IsAnswering 4
      (omega arith)
