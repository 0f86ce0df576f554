-- ===== src/Steam/Assemble.antt =====
-- `Fetch` of internal/infrastructure/clients/steam/reconcile.go, from the resolutions on: prices, the
-- dust filter and the retractions. `CurrentPrice`, `stalePrice` and the counter of
-- failures are the interface `Quotes`, over what is behind them.
pub mod Dust
pub mod Shared
use Prim.Native.String.{◌++◌}
use wealthfolio_connect_self.Prelude.{
  ℕ, String, Bool, true, false, not, ◌&&◌, ◌||◌, Option, none, some, List, [], ◌∷◌, leb, is_empty,
  str_eq, is_some, if◌then◌else◌,
}
use wealthfolio_connect_self.Prelude.Int.{ℤ, pos, ◌+ℤ◌}
use wealthfolio_connect_self.Prelude.Map.{Map, lookup, insert}
use wealthfolio_connect_self.Prelude.Text.{Unicode, is_space, map_text}
use wealthfolio_connect_self.Prelude.Search.{keep}
use wealthfolio_connect_self.Domain.Brokerage.{Connection, Account, Activity, Position, Holdings}
use wealthfolio_connect_self.Steam.Model.{Resolution, SteamFloats}
use wealthfolio_connect_self.Steam.Names.{price_dedupe_key}
use wealthfolio_connect_self.Steam.Valuation.{
  pricable, opt_float, to_domain_asset, pnl_of, to_position, to_activity,
}

abbrev pub amount_at : Option ℤ → ℤ
amount_at none = pos 0
amount_at (some n) = n

-- The price of one name in one run, with the time of its observation.
pub record PricedQuote (F : Type 0) : Type 0 where
  pub quote : Option (F × String)
  pub observed : ℕ

-- `current_price` gives a price, its kind and its time, where the price is usable.
pub record Quotes (F S : Type 0) : Type 0 where
  pub current_price : String → S → Option (F × String × ℕ) × S
  pub stale_price : String → S → Option (F × String)
  pub price_fails : S → ℕ

abbrev pub price_fail_breaker : ℕ
price_fail_breaker = 10

-- The variables of the loop that prices the items.
pub record Run (F S : Type 0) : Type 0 where
  pub priced : Map (PricedQuote F)
  pub pricing : Bool
  pub behind : S

-- What the loop makes of an item.
pub data Emitted (F : Type 0) : Type 0 where
  shown : Position F → Option (Activity F) → Emitted F
  retracted : String → Emitted F

pub record Assembled (F : Type 0) : Type 0 where
  pub positions : List (Position F)
  pub activities : List (Activity F)
  pub retractions : List String

abbrev pub with_activity :
    {F : Type 0} → Option (Activity F) → List (Activity F) → List (Activity F)
with_activity none acts = acts
with_activity (some act) acts = act ∷ acts

unfoldable pub add_emitted : {F : Type 0} → Emitted F → Assembled F → Assembled F
add_emitted (shown p act) rest = record rest {
  positions = p ∷ rest.positions;
  activities = with_activity act rest.activities;
}
add_emitted (retracted id) rest = record rest { retractions = id ∷ rest.retractions }

abbrev pub price_in : {F : Type 0} → Option (F × String) → Option F
price_in none = none
price_in (some (price, kind)) = some price

abbrev pub kind_in : {F : Type 0} → Option (F × String) → String
kind_in none = ""
kind_in (some (price, kind)) = kind

module _ {F : Type 0} (unicode : Unicode) (floats : SteamFloats F) where
  unfoldable pub group_quantities : List (Resolution F) → Map ℤ → Map ℤ
  group_quantities [] group_qty = group_qty
  group_quantities (r ∷ rs) group_qty =
      let key = price_dedupe_key unicode r.asset.market_hash_name in
      group_quantities rs (
        if str_eq r.asset.market_hash_name ""
        then group_qty
        else insert key (amount_at (lookup key group_qty) +ℤ r.asset.amount) group_qty)

  -- Whether the dust filter drops an item with this quote; without a threshold it drops none.
  unfoldable pub is_filtered : F → Map ℤ → Resolution F → Option (F × String) → Bool
  is_filtered min_value group_qty r none = floats.less floats.zero min_value
  is_filtered min_value group_qty r (some (price, kind)) =
      let key = price_dedupe_key unicode r.asset.market_hash_name in
      let total = floats.mul (floats.of_int (amount_at (lookup key group_qty))) price in
      floats.less floats.zero min_value && floats.less_equal total min_value

  module _ (min_value : F) (steam_id account_id : String) (now : ℕ) (group_qty : Map ℤ) where
    unfoldable pub emit : Resolution F → Option (F × String) → Emitted F
    emit r quote =
        let view =
          pnl_of floats (to_domain_asset steam_id r now) (price_in quote) (kind_in quote) in
        if is_filtered min_value group_qty r quote
        then retracted ("steam:" ++ r.asset.asset_id)
        else shown (to_position floats r view) (to_activity floats r view account_id now)

  module _ {S : Type 0} (quotes : Quotes F S) where
    -- On what `CurrentPrice` returned: a usable price, or else a recent stored one.
    abbrev pub live_or_stale : String → Option (F × String × ℕ) × S → PricedQuote F × S
    live_or_stale name (some (price, kind, at), s) =
        (record { quote = some (price, kind); observed = at }, s)
    live_or_stale name (none, s) = (record { quote = quotes.stale_price name s; observed = 0 }, s)

    abbrev pub remembered : String → Run F S → PricedQuote F × S → Option (F × String) × Run F S
    remembered key run (q, s) =
        (q.quote, record run { priced = insert key q run.priced; behind = s })

    -- `priceOf`, on what the run knows of the name.
    abbrev pub price_known :
        String → String → Run F S → Option (PricedQuote F) → Option (F × String) × Run F S
    price_known name key run (some q) = (q.quote, run)
    price_known name key run none =
        remembered key run (live_or_stale name (quotes.current_price name run.behind))

    unfoldable pub price_of : String → Run F S → Option (F × String) × Run F S
    price_of name run =
        let key = price_dedupe_key unicode name in price_known name key run (lookup key run.priced)

    -- The breaker's test, and the `switch` behind it.
    unfoldable pub price_item : Resolution F → Run F S → Option (F × String) × Run F S
    price_item r run =
        let tripped = leb price_fail_breaker (quotes.price_fails run.behind) in
        let pricing = run.pricing && not tripped in
        let run' = record run { pricing = pricing } in
        if not (pricable r.asset)
        then (none, run')
        else if pricing
        then price_of r.asset.market_hash_name run'
        else (quotes.stale_price r.asset.market_hash_name run'.behind, run')

    module _ (min_value : F) (steam_id account_id : String) (now : ℕ) (group_qty : Map ℤ) where
      unfoldable pub assemble_items : List (Resolution F) → Run F S → Assembled F × Run F S
      assemble_items [] run = (record { positions = []; activities = []; retractions = [] }, run)
      assemble_items (r ∷ rs) run =
          let (quote, run₁) = price_item r run in
          let (rest, run₂) = assemble_items rs run₁ in
          (add_emitted (emit min_value steam_id account_id now group_qty r quote) rest, run₂)
