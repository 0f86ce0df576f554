-- ===== src/Domain/Brokerage.antt =====
-- internal/domain/brokerage/entities.go. `F` stands for `float64`; a pointer is an option, and a
-- string type with named constants is its text.
use wealthfolio_connect_self.Prelude.{ℕ, String, Bool, Option, List}
use wealthfolio_connect_self.Prelude.Int.{ℤ}

pub record Currency : Type 0 where
  pub code : String
  pub name : String

pub record SymbolType : Type 0 where
  pub code : String
  pub description : String
  pub is_supported : Bool

pub record Exchange : Type 0 where
  pub code : String
  pub mic_code : String
  pub name : String
  pub suffix : String

pub record Symbol : Type 0 where
  pub symbol : String
  pub raw_symbol : String
  pub description : String
  pub name : String
  pub type : SymbolType
  pub exchange : Exchange
  pub currency : Currency
  pub figi_code : String

pub record OptionSymbol (F : Type 0) : Type 0 where
  pub ticker : String
  pub option_type : String
  pub strike_price : F
  pub expiration_date : ℕ
  pub is_mini_option : Bool
  pub underlying : Symbol

pub record Connection : Type 0 where
  pub id : String
  pub authorization_id : String
  pub brokerage_name : String
  pub brokerage_slug : String
  pub display_name : String
  pub logo_url : String
  pub square_logo_url : String
  pub disabled : Bool
  pub name : String
  pub status : String
  pub updated_at : ℕ

pub record Account (F : Type 0) : Type 0 where
  pub id : String
  pub name : String
  pub account_number : String
  pub type : String
  pub raw_type : String
  pub currency : String
  pub balance_total : F
  pub balance_currency : String
  pub brokerage_authorization : String
  pub institution_name : String
  pub sync_enabled : Bool
  pub shared_with_household : Bool
  pub is_paper : Bool
  pub status : String
  pub created_date : ℕ
  pub last_tx_sync : Option ℕ
  pub last_holdings_sync : Option ℕ
  pub first_tx_date : Option ℕ
  pub initial_tx_sync_done : Bool
  pub initial_holdings_done : Bool
  pub activity_sync_offset : ℤ
  pub owner_user_id : String
  pub owner_full_name : String
  pub owner_email : String

pub record Activity (F : Type 0) : Type 0 where
  pub id : String
  pub account_id : String
  pub symbol : Option Symbol
  pub currency_symbol : Option Symbol
  pub is_external : Bool
  pub option_symbol : Option (OptionSymbol F)
  pub price : F
  pub units : F
  pub amount : F
  pub currency : Currency
  pub type : String
  pub subtype : String
  pub raw_type : String
  pub option_type : String
  pub description : String
  pub trade_date : ℕ
  pub settlement_date : Option ℕ
  pub fee : F
  pub fee_asset : String
  pub fx_rate : Option F
  pub institution : String
  pub external_reference_id : String
  pub provider_type : String
  pub source_system : String
  pub source_record_id : String
  pub source_group_id : String
  pub source_fingerprint : String
  pub needs_review : Bool

pub record Position (F : Type 0) : Type 0 where
  pub symbol : Symbol
  pub units : F
  pub price : F
  pub open_pnl : F
  pub average_purchase_price : F
  pub currency : Currency
  pub cash_equivalent : Bool

pub record OptionPosition (F : Type 0) : Type 0 where
  pub option_symbol : OptionSymbol F
  pub units : F
  pub price : F
  pub average_purchase_price : F
  pub currency : Currency

pub record Balance (F : Type 0) : Type 0 where
  pub currency : Currency
  pub cash : F
  pub buying_power : F

pub record Holdings (F : Type 0) : Type 0 where
  pub account_id : String
  pub balances : List (Balance F)
  pub positions : List (Position F)
  pub option_positions : List (OptionPosition F)
  pub captured_at : ℕ
  pub partial : Bool
