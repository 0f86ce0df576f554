-- ===== src/Persistence/ActivityModel/Convert.antt =====
-- `activityFromDomain` and `ToDomain` of internal/infrastructure/persistence/activity_model.go.
use wealthfolio_connect_self.Prelude.{String, not, ◌||◌, Option, none, some, str_eq, if◌then◌else◌}
use wealthfolio_connect_self.Domain.Brokerage.{Symbol, OptionSymbol, Activity}
use wealthfolio_connect_self.Persistence.ActivityModel.{
  ActivityPo, symbol_or_zero, or_zero_time, nullable_time, or_custom, option_or_zero,
}

module _ {F : Type 0} (zero_float : F) where
  -- `activityFromDomain`; `zero_float` is 0 as a `float64`.
  unfoldable pub activity_from_domain : String → Activity F → ActivityPo F
  activity_from_domain account_id a =
      let s = symbol_or_zero a.symbol in
      let currency_symbol = symbol_or_zero a.currency_symbol in
      let opt = option_or_zero zero_float a.option_symbol in
      record {
        id = a.id;
        account_id = account_id;
        source_record_id = a.source_record_id;
        symbol_ticker = s.symbol;
        symbol_raw = s.raw_symbol;
        symbol_description = s.description;
        symbol_name = s.name;
        symbol_type_code = s.type.code;
        symbol_type_desc = s.type.description;
        symbol_type_supported = s.type.is_supported;
        symbol_exchange_code = s.exchange.code;
        symbol_exchange_mic = s.exchange.mic_code;
        symbol_exchange_name = s.exchange.name;
        symbol_exchange_suffix = s.exchange.suffix;
        symbol_currency_code = s.currency.code;
        symbol_currency_name = s.currency.name;
        symbol_figi = s.figi_code;
        currency_symbol_ticker = currency_symbol.symbol;
        currency_symbol_raw = currency_symbol.raw_symbol;
        currency_symbol_description = currency_symbol.description;
        currency_symbol_name = currency_symbol.name;
        currency_symbol_type_code = currency_symbol.type.code;
        currency_symbol_type_desc = currency_symbol.type.description;
        currency_symbol_supported = currency_symbol.type.is_supported;
        currency_symbol_exchange_code = currency_symbol.exchange.code;
        currency_symbol_exchange_mic = currency_symbol.exchange.mic_code;
        currency_symbol_exchange_name = currency_symbol.exchange.name;
        currency_symbol_exchange_sfx = currency_symbol.exchange.suffix;
        currency_symbol_currency_code = currency_symbol.currency.code;
        currency_symbol_currency_name = currency_symbol.currency.name;
        currency_symbol_figi = currency_symbol.figi_code;
        option_ticker = opt.ticker;
        option_side = opt.option_type;
        option_strike = opt.strike_price;
        option_expiry = nullable_time opt.expiration_date;
        option_is_mini = opt.is_mini_option;
        option_underlying = opt.underlying.symbol;
        option_underlying_raw = opt.underlying.raw_symbol;
        option_underlying_desc = opt.underlying.description;
        option_underlying_type = opt.underlying.type.code;
        option_underlying_type_desc = opt.underlying.type.description;
        option_underlying_supported = opt.underlying.type.is_supported;
        option_underlying_exch = opt.underlying.exchange.code;
        option_underlying_mic = opt.underlying.exchange.mic_code;
        option_underlying_exch_name = opt.underlying.exchange.name;
        option_underlying_exch_suffix = opt.underlying.exchange.suffix;
        option_underlying_curr = opt.underlying.currency.code;
        option_underlying_curr_name = opt.underlying.currency.name;
        option_underlying_figi = opt.underlying.figi_code;
        price = a.price;
        units = a.units;
        amount = a.amount;
        currency_code = a.currency.code;
        currency_name = a.currency.name;
        type = a.type;
        subtype = a.subtype;
        raw_type = a.raw_type;
        option_type = a.option_type;
        description = a.description;
        trade_date = a.trade_date;
        settlement_date = a.settlement_date;
        fee = a.fee;
        fee_asset = a.fee_asset;
        fx_rate = a.fx_rate;
        institution = a.institution;
        external_reference_id = a.external_reference_id;
        provider_type = or_custom a.provider_type;
        source_system = or_custom a.source_system;
        source_group_id = a.source_group_id;
        source_fingerprint = a.source_fingerprint;
        needs_review = a.needs_review;
        is_external = a.is_external;
      }

module _ {F : Type 0} where
  -- The parts of `ToDomain`: each pointer is set when its columns name something.
  unfoldable pub symbol_of : ActivityPo F → Option Symbol
  symbol_of p =
      if not (str_eq p.symbol_ticker "") || not (str_eq p.symbol_raw "")
      then some (record {
        symbol = p.symbol_ticker;
        raw_symbol = p.symbol_raw;
        description = p.symbol_description;
        name = p.symbol_name;
        type = record {
          code = p.symbol_type_code;
          description = p.symbol_type_desc;
          is_supported = p.symbol_type_supported;
        };
        exchange = record {
          code = p.symbol_exchange_code;
          mic_code = p.symbol_exchange_mic;
          name = p.symbol_exchange_name;
          suffix = p.symbol_exchange_suffix;
        };
        currency = record { code = p.symbol_currency_code; name = p.symbol_currency_name };
        figi_code = p.symbol_figi;
      })
      else none

  unfoldable pub currency_symbol_of : ActivityPo F → Option Symbol
  currency_symbol_of p =
      if not (str_eq p.currency_symbol_ticker "") || not (str_eq p.currency_symbol_raw "")
      then some (record {
        symbol = p.currency_symbol_ticker;
        raw_symbol = p.currency_symbol_raw;
        description = p.currency_symbol_description;
        name = p.currency_symbol_name;
        type = record {
          code = p.currency_symbol_type_code;
          description = p.currency_symbol_type_desc;
          is_supported = p.currency_symbol_supported;
        };
        exchange = record {
          code = p.currency_symbol_exchange_code;
          mic_code = p.currency_symbol_exchange_mic;
          name = p.currency_symbol_exchange_name;
          suffix = p.currency_symbol_exchange_sfx;
        };
        currency = record {
          code = p.currency_symbol_currency_code;
          name = p.currency_symbol_currency_name;
        };
        figi_code = p.currency_symbol_figi;
      })
      else none

  unfoldable pub option_symbol_of : ActivityPo F → Option (OptionSymbol F)
  option_symbol_of p =
      if not (str_eq p.option_ticker "")
      then some (record {
        ticker = p.option_ticker;
        option_type = p.option_side;
        strike_price = p.option_strike;
        expiration_date = or_zero_time p.option_expiry;
        is_mini_option = p.option_is_mini;
        underlying = record {
          symbol = p.option_underlying;
          raw_symbol = p.option_underlying_raw;
          description = p.option_underlying_desc;
          name = "";
          type = record {
            code = p.option_underlying_type;
            description = p.option_underlying_type_desc;
            is_supported = p.option_underlying_supported;
          };
          exchange = record {
            code = p.option_underlying_exch;
            mic_code = p.option_underlying_mic;
            name = p.option_underlying_exch_name;
            suffix = p.option_underlying_exch_suffix;
          };
          currency = record {
            code = p.option_underlying_curr;
            name = p.option_underlying_curr_name;
          };
          figi_code = p.option_underlying_figi;
        };
      })
      else none

  -- `ToDomain`
  unfoldable pub activity_to_domain : ActivityPo F → Activity F
  activity_to_domain p = record {
    id = p.id;
    account_id = p.account_id;
    symbol = symbol_of p;
    currency_symbol = currency_symbol_of p;
    is_external = p.is_external;
    option_symbol = option_symbol_of p;
    price = p.price;
    units = p.units;
    amount = p.amount;
    currency = record { code = p.currency_code; name = p.currency_name };
    type = p.type;
    subtype = p.subtype;
    raw_type = p.raw_type;
    option_type = p.option_type;
    description = p.description;
    trade_date = p.trade_date;
    settlement_date = p.settlement_date;
    fee = p.fee;
    fee_asset = p.fee_asset;
    fx_rate = p.fx_rate;
    institution = p.institution;
    external_reference_id = p.external_reference_id;
    provider_type = p.provider_type;
    source_system = p.source_system;
    source_record_id = p.source_record_id;
    source_group_id = p.source_group_id;
    source_fingerprint = p.source_fingerprint;
    needs_review = p.needs_review;
  }
