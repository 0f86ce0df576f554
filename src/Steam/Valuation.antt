-- ===== src/Steam/Valuation.antt =====
-- internal/domain/steam/entities.go: `PnL`, and internal/infrastructure/clients/steam/reconcile.go:
-- the position and the activity of one asset.
use Prim.Native.String.{◌++◌}
use wealthfolio_connect_self.Prelude.{
  ℕ, String, Bool, true, false, not, ◌&&◌, ◌||◌, Option, none, some, str_eq, if◌then◌else◌,
}
use wealthfolio_connect_self.Domain.Brokerage.{Currency, Symbol, Activity, Position}
use wealthfolio_connect_self.Steam.Model.{
  InventoryItem, Resolution, SteamAsset, PricedAsset, SteamFloats, acquisition_market_buy,
  match_low, match_medium, match_unresolved,
}

-- `string(brokerage.ActivityBuy)` and `ActivityTransferIn`
abbrev pub activity_buy : String
activity_buy = "BUY"

abbrev pub activity_transfer_in : String
activity_transfer_in = "TRANSFER_IN"

unfoldable pub pricable : InventoryItem → Bool
pricable it = not (str_eq it.market_hash_name "") && it.marketable

unfoldable pub opt_float : {F : Type 0} → Bool → F → Option F
opt_float ok v = if ok then some v else none

unfoldable pub title_of : {F : Type 0} → Resolution F → String
title_of r =
    if not (str_eq r.asset.market_hash_name "")
    then r.asset.market_hash_name
    else if not (str_eq r.asset.name "")
    then r.asset.name
    else "Steam item " ++ r.asset.asset_id

abbrev pub in_usd : Currency
in_usd = record { code = "USD"; name = "" }

abbrev pub collectible : String → String → String → Symbol
collectible title description market = record {
  symbol = title;
  raw_symbol = title;
  description = title;
  name = title;
  type = record { code = "COLLECTIBLE"; description = description; is_supported = true };
  exchange = record { code = "STEAM"; mic_code = ""; name = market; suffix = "" };
  currency = in_usd;
  figi_code = "";
}

module _ {F : Type 0} where
  unfoldable pub to_domain_asset : String → Resolution F → ℕ → SteamAsset F
  to_domain_asset steam_id r now = record {
    steam_id = steam_id;
    asset_id = r.asset.asset_id;
    class_id = r.asset.class_id;
    instance_id = r.asset.instance_id;
    market_hash_name = r.asset.market_hash_name;
    amount = r.asset.amount;
    first_seen_at = now;
    last_seen_at = now;
    acquired_at = r.acquired_at;
    acquisition_type = r.type;
    acquisition_ref = r.reference;
    cost_basis = r.cost_basis;
    cost_currency = r.cost_currency;
    match_method = r.match_method;
    match_confidence = r.match_confidence;
  }

  module _ (floats : SteamFloats F) where
    -- The two steps of `PnL` after the value: with a known basis.
    abbrev pub with_basis : PricedAsset F → F → Option F → PricedAsset F
    with_basis out value none = out
    with_basis out value (some cost) =
        let basis = floats.mul (floats.of_int out.asset.amount) cost in
        let pnl = floats.sub value basis in
        record out {
          unrealized_pnl = some pnl;
          unrealized_pnl_percent =
              if floats.equal basis floats.zero
              then none
              else some (floats.mul (floats.div pnl basis) floats.hundred);
        }

    unfoldable pub pnl_of : SteamAsset F → Option F → String → PricedAsset F
    pnl_of asset none price_type = record {
      asset = asset;
      current_price = none;
      price_type = price_type;
      current_value = none;
      unrealized_pnl = none;
      unrealized_pnl_percent = none;
    }
    pnl_of asset (some price) price_type =
        let value = floats.mul (floats.of_int asset.amount) price in
        with_basis
          (record {
            asset = asset;
            current_price = some price;
            price_type = price_type;
            current_value = some value;
            unrealized_pnl = none;
            unrealized_pnl_percent = none;
          })
          value asset.cost_basis

    abbrev pub or_zero : Option F → F
    or_zero none = floats.zero
    or_zero (some x) = x

    unfoldable pub to_position : Resolution F → PricedAsset F → Position F
    to_position r view = record {
      symbol = collectible (title_of r) "Steam collectible" "Steam Community Market";
      units = floats.of_int r.asset.amount;
      price = or_zero view.current_price;
      open_pnl = or_zero view.unrealized_pnl;
      average_purchase_price = or_zero view.asset.cost_basis;
      currency = in_usd;
      cash_equivalent = false;
    }

    unfoldable pub base_activity : Resolution F → String → ℕ → Activity F
    base_activity r account_id now = record {
      id = "steam:" ++ r.asset.asset_id;
      account_id = account_id;
      symbol = some (collectible (title_of r) "" "");
      currency_symbol = none;
      is_external = false;
      option_symbol = none;
      price = floats.zero;
      units = floats.of_int r.asset.amount;
      amount = floats.zero;
      currency = in_usd;
      type = activity_transfer_in;
      subtype = "";
      raw_type = r.type;
      option_type = "";
      description =
          "Steam " ++ r.type ++ " (" ++ r.match_method ++ "/" ++ r.match_confidence ++ ")";
      trade_date = now;
      settlement_date = none;
      fee = floats.zero;
      fee_asset = "";
      fx_rate = none;
      institution = "";
      external_reference_id = "";
      provider_type = "steam";
      source_system = "steam";
      source_record_id = "steam:" ++ r.asset.asset_id;
      source_group_id = r.match_method;
      source_fingerprint = "";
      needs_review = str_eq r.match_confidence match_low || str_eq r.match_confidence match_medium;
    }

    -- A market buy with a known cost.
    abbrev pub with_cost : Resolution F → Option F → Activity F → Activity F
    with_cost r none act = act
    with_cost r (some cost) act =
        if str_eq r.type acquisition_market_buy
        then record act {
          type = activity_buy;
          price = cost;
          amount = floats.mul cost act.units;
          currency =
              if str_eq r.cost_currency ""
              then act.currency
              else record { code = r.cost_currency; name = "" };
          needs_review =
              if not (str_eq r.cost_currency "") && not (str_eq r.cost_currency "USD")
              then true
              else act.needs_review;
        }
        else act

    abbrev pub with_date : Option ℕ → ℕ → Activity F → Activity F
    with_date none now act = record act { trade_date = now; needs_review = true }
    with_date (some t) now act = record act { trade_date = t }

    unfoldable pub to_activity : Resolution F → PricedAsset F → String → ℕ → Option (Activity F)
    to_activity r view account_id now =
        let act =
          with_date r.acquired_at now
            (with_cost r view.asset.cost_basis (base_activity r account_id now)) in
        if str_eq r.match_confidence match_unresolved
        then none
        else some (record act {
          external_reference_id =
              if str_eq r.reference "" then act.external_reference_id else r.reference;
        })
