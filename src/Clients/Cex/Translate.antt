-- ===== src/Clients/Cex/Translate.antt =====
-- `Translate` of internal/infrastructure/clients/cexcommon/cexcommon.go.
use Prim.Native.String.{◌++◌}
use wealthfolio_connect_self.Prelude.{
  ℕ, String, true, false, ◌&&◌, none, some, List, [], ◌∷◌, is_empty, if◌then◌else◌,
}
use wealthfolio_connect_self.Prelude.Int.{pos}
use wealthfolio_connect_self.Prelude.Text.{Unicode, map_text}
use wealthfolio_connect_self.Domain.Brokerage.{Symbol, Connection, Account, Position}
use wealthfolio_connect_self.Sync.Ports.{BrokerSnapshot}
use wealthfolio_connect_self.Clients.Cex.{
  Floats, CexBalance, Snapshot, quote_usd, normalize_asset, is_stablecoin,
}
use wealthfolio_connect_self.Clients.Cex.Trades.{no_exchange_suffix, usd, activities_of}

module _ (unicode : Unicode) where
  abbrev pub asset_symbol : String → String → String → Symbol
  asset_symbol slug display_name asset = record {
    symbol = asset;
    raw_symbol = asset;
    description = asset;
    name = asset;
    type = record { code = "CRYPTO"; description = "Cryptocurrency"; is_supported = true };
    exchange = no_exchange_suffix (map_text unicode.upper slug) display_name;
    currency = usd;
    figi_code = "";
  }

  module _ {F : Type 0} (floats : Floats F) where
    unfoldable pub unvalued_position : String → String → String → F → Position F
    unvalued_position slug display_name asset quantity = record {
      symbol = asset_symbol slug display_name asset;
      units = quantity;
      price = floats.zero;
      open_pnl = floats.zero;
      average_purchase_price = floats.zero;
      currency = usd;
      cash_equivalent = false;
    }

    abbrev pub valued_position : String → String → String → CexBalance F → Position F
    valued_position slug display_name asset b =
        record (unvalued_position slug display_name asset b.quantity) { price = b.price_usd }

    -- The loop over the balances: the cash, and the positions.
    unfoldable pub fold_balances : String → String → F → List (CexBalance F) → F × List (Position F)
    fold_balances slug display_name cash [] = (cash, [])
    fold_balances slug display_name cash (b ∷ bs) =
        let asset = normalize_asset unicode b.asset in
        let same = fold_balances slug display_name cash bs in
        let more = fold_balances slug display_name (floats.add cash b.usd_value) bs in
        if floats.equal b.quantity floats.zero
        then same
        else if is_stablecoin unicode asset
        then more
        else if floats.equal b.price_usd floats.zero && floats.equal b.usd_value floats.zero
        then (same.0, unvalued_position slug display_name asset b.quantity ∷ same.1)
        else if floats.less b.usd_value floats.one
        then same
        else (same.0, valued_position slug display_name asset b ∷ same.1)

    unfoldable pub total_usd : F → List (CexBalance F) → F
    total_usd sum [] = sum
    total_usd sum (b ∷ bs) = total_usd (floats.add sum b.usd_value) bs

    abbrev pub account_row : ℕ → String → String → Snapshot F → Account F
    account_row now slug display_name s = record {
      id = slug ++ "-spot";
      name = display_name ++ " Spot";
      account_number = "";
      type = "CRYPTOCURRENCY";
      raw_type = "CRYPTO_SPOT";
      currency = quote_usd;
      balance_total = total_usd floats.zero s.balances;
      balance_currency = quote_usd;
      brokerage_authorization = slug ++ "-auth";
      institution_name = display_name;
      sync_enabled = true;
      shared_with_household = false;
      is_paper = false;
      status = "open";
      created_date = now;
      last_tx_sync = if s.activities_fetched then some now else none;
      last_holdings_sync = some now;
      first_tx_date = none;
      initial_tx_sync_done = s.activities_fetched;
      initial_holdings_done = true;
      activity_sync_offset = pos 0;
      owner_user_id = "";
      owner_full_name = "";
      owner_email = "";
    }

    abbrev pub connection_row : ℕ → String → String → Connection
    connection_row now slug display_name = record {
      id = slug ++ "-conn";
      authorization_id = slug ++ "-auth";
      brokerage_name = display_name;
      brokerage_slug = slug;
      display_name = display_name;
      logo_url = "";
      square_logo_url = "";
      disabled = false;
      name = display_name;
      status = "active";
      updated_at = now;
    }

    -- `Translate`, at the clock's reading `now`.
    unfoldable pub translate : ℕ → String → String → Snapshot F → BrokerSnapshot F
    translate now slug display_name s =
        let account_id = slug ++ "-spot" in
        let (cash, positions) = fold_balances slug display_name floats.zero s.balances in
        record {
          connection = connection_row now slug display_name;
          connections = [];
          accounts = account_row now slug display_name s ∷ [];
          holdings =
              (record {
                account_id = account_id;
                balances =
                    (record { currency = usd; cash = cash; buying_power = floats.zero }) ∷ [];
                positions = positions;
                option_positions = [];
                captured_at = now;
                partial = s.partial;
              })
              ∷ [];
          activities =
              if is_empty s.trades
              then []
              else (account_id, activities_of unicode floats s.fee_price account_id slug s.trades)
                ∷ [];
          retracted_activities = [];
        }
