-- ===== src/Persistence/ActivityModel.antt =====
-- internal/infrastructure/persistence/activity_model.go: the row of an activity, and the conversions
-- between the row and the activity of the domain.
pub mod Convert
pub mod RoundTrip
use wealthfolio_connect_self.Prelude.{
  ℕ, String, ◌≡◌, refl, Bool, true, false, not, ◌&&◌, ◌||◌, Option, none, some, str_eq,
  if◌then◌else◌,
}
use wealthfolio_connect_self.Prelude.Time.{is_zero}
use wealthfolio_connect_self.Domain.Brokerage.{
  Currency, SymbolType, Exchange, Symbol, OptionSymbol, Activity,
}

pub record ActivityPo (F : Type 0) : Type 0 where
  pub id : String
  pub account_id : String
  pub source_record_id : String
  pub symbol_ticker : String
  pub symbol_raw : String
  pub symbol_description : String
  pub symbol_name : String
  pub symbol_type_code : String
  pub symbol_type_desc : String
  pub symbol_type_supported : Bool
  pub symbol_exchange_code : String
  pub symbol_exchange_mic : String
  pub symbol_exchange_name : String
  pub symbol_exchange_suffix : String
  pub symbol_currency_code : String
  pub symbol_currency_name : String
  pub symbol_figi : String
  pub currency_symbol_ticker : String
  pub currency_symbol_raw : String
  pub currency_symbol_description : String
  pub currency_symbol_name : String
  pub currency_symbol_type_code : String
  pub currency_symbol_type_desc : String
  pub currency_symbol_supported : Bool
  pub currency_symbol_exchange_code : String
  pub currency_symbol_exchange_mic : String
  pub currency_symbol_exchange_name : String
  pub currency_symbol_exchange_sfx : String
  pub currency_symbol_currency_code : String
  pub currency_symbol_currency_name : String
  pub currency_symbol_figi : String
  pub option_ticker : String
  pub option_side : String
  pub option_strike : F
  pub option_expiry : Option ℕ
  pub option_is_mini : Bool
  pub option_underlying : String
  pub option_underlying_raw : String
  pub option_underlying_desc : String
  pub option_underlying_type : String
  pub option_underlying_type_desc : String
  pub option_underlying_supported : Bool
  pub option_underlying_exch : String
  pub option_underlying_mic : String
  pub option_underlying_exch_name : String
  pub option_underlying_exch_suffix : String
  pub option_underlying_curr : String
  pub option_underlying_curr_name : String
  pub option_underlying_figi : String
  pub price : F
  pub units : F
  pub amount : F
  pub currency_code : String
  pub currency_name : String
  pub type : String
  pub subtype : String
  pub raw_type : String
  pub option_type : String
  pub description : String
  pub trade_date : ℕ
  pub settlement_date : Option ℕ
  pub fee : F
  pub fee_asset : String
  pub fx_rate : Option F
  pub institution : String
  pub external_reference_id : String
  pub provider_type : String
  pub source_system : String
  pub source_group_id : String
  pub source_fingerprint : String
  pub needs_review : Bool
  pub is_external : Bool

-- Go's zero values.
abbrev pub no_symbol : Symbol
no_symbol = record {
  symbol = "";
  raw_symbol = "";
  description = "";
  name = "";
  type = record { code = ""; description = ""; is_supported = false };
  exchange = record { code = ""; mic_code = ""; name = ""; suffix = "" };
  currency = record { code = ""; name = "" };
  figi_code = "";
}

abbrev pub symbol_or_zero : Option Symbol → Symbol
symbol_or_zero none = no_symbol
symbol_or_zero (some s) = s

-- `orZeroTime`, `nullableTime`
abbrev pub or_zero_time : Option ℕ → ℕ
or_zero_time none = 0
or_zero_time (some t) = t

unfoldable pub nullable_time : ℕ → Option ℕ
nullable_time t = if is_zero t then none else some t

abbrev pub or_custom : String → String
or_custom s = if str_eq s "" then "CUSTOM" else s

module _ {F : Type 0} (zero_float : F) where
  abbrev pub no_option : OptionSymbol F
  no_option = record {
    ticker = "";
    option_type = "";
    strike_price = zero_float;
    expiration_date = 0;
    is_mini_option = false;
    underlying = no_symbol;
  }

  abbrev pub option_or_zero : Option (OptionSymbol F) → OptionSymbol F
  option_or_zero none = no_option
  option_or_zero (some o) = o

  abbrev pub no_row : ActivityPo F
  no_row = record {
    id = "";
    account_id = "";
    source_record_id = "";
    symbol_ticker = "";
    symbol_raw = "";
    symbol_description = "";
    symbol_name = "";
    symbol_type_code = "";
    symbol_type_desc = "";
    symbol_type_supported = false;
    symbol_exchange_code = "";
    symbol_exchange_mic = "";
    symbol_exchange_name = "";
    symbol_exchange_suffix = "";
    symbol_currency_code = "";
    symbol_currency_name = "";
    symbol_figi = "";
    currency_symbol_ticker = "";
    currency_symbol_raw = "";
    currency_symbol_description = "";
    currency_symbol_name = "";
    currency_symbol_type_code = "";
    currency_symbol_type_desc = "";
    currency_symbol_supported = false;
    currency_symbol_exchange_code = "";
    currency_symbol_exchange_mic = "";
    currency_symbol_exchange_name = "";
    currency_symbol_exchange_sfx = "";
    currency_symbol_currency_code = "";
    currency_symbol_currency_name = "";
    currency_symbol_figi = "";
    option_ticker = "";
    option_side = "";
    option_strike = zero_float;
    option_expiry = none;
    option_is_mini = false;
    option_underlying = "";
    option_underlying_raw = "";
    option_underlying_desc = "";
    option_underlying_type = "";
    option_underlying_type_desc = "";
    option_underlying_supported = false;
    option_underlying_exch = "";
    option_underlying_mic = "";
    option_underlying_exch_name = "";
    option_underlying_exch_suffix = "";
    option_underlying_curr = "";
    option_underlying_curr_name = "";
    option_underlying_figi = "";
    price = zero_float;
    units = zero_float;
    amount = zero_float;
    currency_code = "";
    currency_name = "";
    type = "";
    subtype = "";
    raw_type = "";
    option_type = "";
    description = "";
    trade_date = 0;
    settlement_date = none;
    fee = zero_float;
    fee_asset = "";
    fx_rate = none;
    institution = "";
    external_reference_id = "";
    provider_type = "";
    source_system = "";
    source_group_id = "";
    source_fingerprint = "";
    needs_review = false;
    is_external = false;
  }
