-- ===== src/Persistence/AccountModel.antt =====
-- internal/infrastructure/persistence/account_model.go: the row of an account and the conversions.
use wealthfolio_connect_self.Prelude.{ℕ, String, Bool, Option, str_eq, if◌then◌else◌}
use wealthfolio_connect_self.Prelude.Int.{ℤ}
use wealthfolio_connect_self.Prelude.Time.{is_zero}
use wealthfolio_connect_self.Domain.Brokerage.{Account}

pub record AccountPo (F : Type 0) : Type 0 where
  pub id : String
  pub name : String
  pub account_number : String
  pub type : String
  pub raw_type : String
  pub currency : String
  pub balance_total : F
  pub balance_currency : String
  pub brokerage_authorization : String
  pub institution_name : String
  pub sync_enabled : Bool
  pub shared_with_household : Bool
  pub is_paper : Bool
  pub status : String
  pub created_date : ℕ
  pub last_tx_sync : Option ℕ
  pub last_holdings_sync : Option ℕ
  pub first_tx_date : Option ℕ
  pub initial_tx_sync_done : Bool
  pub initial_holdings_done : Bool
  pub activity_sync_offset : ℤ
  pub owner_user_id : String
  pub owner_full_name : String
  pub owner_email : String

module _ {F : Type 0} where
  -- `ToDomain`
  unfoldable pub account_to_domain : AccountPo F → Account F
  account_to_domain p = record {
    id = p.id;
    name = p.name;
    account_number = p.account_number;
    type = p.type;
    raw_type = p.raw_type;
    currency = p.currency;
    balance_total = p.balance_total;
    balance_currency = p.balance_currency;
    brokerage_authorization = p.brokerage_authorization;
    institution_name = p.institution_name;
    sync_enabled = p.sync_enabled;
    shared_with_household = p.shared_with_household;
    is_paper = p.is_paper;
    status = p.status;
    created_date = p.created_date;
    last_tx_sync = p.last_tx_sync;
    last_holdings_sync = p.last_holdings_sync;
    first_tx_date = p.first_tx_date;
    initial_tx_sync_done = p.initial_tx_sync_done;
    initial_holdings_done = p.initial_holdings_done;
    activity_sync_offset = p.activity_sync_offset;
    owner_user_id = p.owner_user_id;
    owner_full_name = p.owner_full_name;
    owner_email = p.owner_email;
  }

  -- `accountFromDomain`, at the clock's reading `now`.
  unfoldable pub account_from_domain : ℕ → Account F → AccountPo F
  account_from_domain now a = record {
    id = a.id;
    name = a.name;
    account_number = a.account_number;
    type = a.type;
    raw_type = a.raw_type;
    currency = a.currency;
    balance_total = a.balance_total;
    balance_currency = a.balance_currency;
    brokerage_authorization = a.brokerage_authorization;
    institution_name = a.institution_name;
    sync_enabled = a.sync_enabled;
    shared_with_household = a.shared_with_household;
    is_paper = a.is_paper;
    status = if str_eq a.status "" then "open" else a.status;
    created_date = if is_zero a.created_date then now else a.created_date;
    last_tx_sync = a.last_tx_sync;
    last_holdings_sync = a.last_holdings_sync;
    first_tx_date = a.first_tx_date;
    initial_tx_sync_done = a.initial_tx_sync_done;
    initial_holdings_done = a.initial_holdings_done;
    activity_sync_offset = a.activity_sync_offset;
    owner_user_id = a.owner_user_id;
    owner_full_name = a.owner_full_name;
    owner_email = a.owner_email;
  }
