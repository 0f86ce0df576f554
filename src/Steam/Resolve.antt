-- ===== src/Steam/Resolve.antt =====
-- internal/infrastructure/clients/steam/reconcile.go: `resolve` and `applyEvent`. `before` is the set
-- of the assets of the last snapshot, `none` when it is not known.
pub mod Outcome
pub mod Grounds
pub mod Distinct
use wealthfolio_connect_self.Prelude.{
  ℕ, String, Bool, false, not, Option, none, some, List, [], ◌∷◌, str_eq, if◌then◌else◌,
}
use wealthfolio_connect_self.Prelude.Int.{pos, ltb_ℤ}
use wealthfolio_connect_self.Prelude.Time.{is_zero}
use wealthfolio_connect_self.Prelude.Map.{Map}
use wealthfolio_connect_self.Prelude.Search.{keep}
use wealthfolio_connect_self.Steam.Model.{
  HistoryEvent, InventoryItem, MarketTransaction, TradeRecord, Resolution, SteamFloats,
  acquisition_market_buy, acquisition_trade, acquisition_unresolved, match_exact, match_high,
  match_medium, match_unresolved, match_snapshot_event, match_new_asset_id_method,
  match_history_market, match_attributes_only, match_method_unresolved,
}
use wealthfolio_connect_self.Steam.Match.{
  contains, acquisition_for_kind, events_of, match_event, match_new_asset_id, match_market_pair,
  match_attributes,
}

-- `before != nil && !before[assetID]`
abbrev pub was_absent : Option (List String) → String → Bool
was_absent none id = false
was_absent (some held) id = not (contains id held)

-- The loop's variables: the resolution of the asset, and the two sets.
pub record Progress (F : Type 0) : Type 0 where
  pub resolution : Resolution F
  pub consumed : List String
  pub consumed_tx : List String

unfoldable pub unmatched_of : List String → List HistoryEvent → List HistoryEvent
unmatched_of consumed = keep (λ ev. not (contains ev.external_id consumed))

module _ {F : Type 0} where
  unfoldable pub unresolved : InventoryItem → Resolution F
  unresolved it = record {
    asset = it;
    acquired_at = none;
    type = acquisition_unresolved;
    reference = "";
    cost_basis = none;
    cost_currency = "";
    match_method = match_method_unresolved;
    match_confidence = match_unresolved;
  }

  unfoldable pub apply_event : Resolution F → HistoryEvent → Resolution F
  apply_event r ev = record r {
    acquired_at = if is_zero ev.timestamp then r.acquired_at else some ev.timestamp;
    type = acquisition_for_kind ev.kind;
    reference = ev.external_id;
  }

  abbrev pub matched : Resolution F → String → String → Resolution F
  matched r method confidence = record r { match_method = method; match_confidence = confidence }

  abbrev pub is_open : Progress F → Bool
  is_open p = str_eq p.resolution.match_confidence match_unresolved

  unfoldable pub take_event : Progress F → String → String → Option HistoryEvent → Progress F
  take_event p method confidence none = p
  take_event p method confidence (some ev) = record p {
    resolution = matched (apply_event p.resolution ev) method confidence;
    consumed = ev.external_id ∷ p.consumed;
  }

  unfoldable pub take_trade : Progress F → Option TradeRecord → Progress F
  take_trade p none = p
  take_trade p (some tr) = record p {
    resolution = record (matched p.resolution match_new_asset_id_method match_exact) {
      acquired_at = some tr.timestamp;
      type = acquisition_trade;
      reference = tr.trade_id;
    };
  }

  module _ (floats : SteamFloats F) where
    -- The cost of one item of a purchase.
    unfoldable pub basis_of : MarketTransaction F → F
    basis_of tx =
        if ltb_ℤ (pos 1) tx.quantity
        then floats.div tx.gross (floats.of_int tx.quantity)
        else tx.gross

    unfoldable pub take_pair : Progress F → Option (HistoryEvent × MarketTransaction F) → Progress F
    take_pair p none = p
    take_pair p (some (ev, tx)) = record {
      resolution =
          let r = apply_event p.resolution ev in
          record r {
            type = acquisition_market_buy;
            reference = tx.external_id;
            cost_currency = if str_eq tx.currency "" then r.cost_currency else tx.currency;
            cost_basis = some (basis_of tx);
            match_method = match_history_market;
            match_confidence = match_high;
          };
      consumed = ev.external_id ∷ p.consumed;
      consumed_tx = tx.external_id ∷ p.consumed_tx;
    }

    module _ (text_less : String → String → Bool) (before : Option (List String))
        (events : List HistoryEvent) (market : Map (MarketTransaction F))
        (trades : List TradeRecord) (now : ℕ) where
      unfoldable pub snapshot_path : InventoryItem → Progress F → Progress F
      snapshot_path it p =
          if was_absent before it.asset_id
          then take_event p match_snapshot_event match_exact
              (match_event (events_of it.asset_id events) it)
          else p

      unfoldable pub trade_path : InventoryItem → Progress F → Progress F
      trade_path it p =
          if is_open p then take_trade p (match_new_asset_id trades it.asset_id) else p

      unfoldable pub market_path : InventoryItem → Progress F → Progress F
      market_path it p =
          if is_open p
          then take_pair p (match_market_pair text_less events market p.consumed p.consumed_tx it)
          else p

      unfoldable pub attribute_path : InventoryItem → Progress F → Progress F
      attribute_path it p =
          if is_open p
          then take_event p match_attributes_only match_medium
              (match_attributes events p.consumed it now)
          else p

      unfoldable pub resolve_item : InventoryItem → List String → List String → Progress F
      resolve_item it consumed consumed_tx = attribute_path it (
          market_path it (
            trade_path it (
              snapshot_path it (record {
                resolution = unresolved it;
                consumed = consumed;
                consumed_tx = consumed_tx;
              }))))

      -- The loop over the owned assets: the resolutions, and what they consumed.
      unfoldable pub resolve_items :
          List InventoryItem → List String → List String → List (Resolution F) × List String
      resolve_items [] consumed consumed_tx = ([], consumed)
      resolve_items (it ∷ its) consumed consumed_tx =
          let p = resolve_item it consumed consumed_tx in
          let (rest, all_consumed) = resolve_items its p.consumed p.consumed_tx in
          (p.resolution ∷ rest, all_consumed)

      unfoldable pub resolve : List InventoryItem → List (Resolution F) × List HistoryEvent
      resolve owned =
          let (resolved, consumed) = resolve_items owned [] [] in
          (resolved, unmatched_of consumed events)
