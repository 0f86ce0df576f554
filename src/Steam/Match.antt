-- ===== src/Steam/Match.antt =====
-- internal/infrastructure/clients/steam/reconcile.go: the searches for the evidence of one asset,
-- from `matchEvent` to `absDuration`. A `map[string]bool` that only ever gets `true` is the list of
-- its keys, and a value with a flag is an option.
pub mod Nearest
pub mod Pairing
pub mod Gap
use wealthfolio_connect_self.Prelude.{
  ℕ, ◌*◌, String, Bool, true, false, not, ◌&&◌, ◌||◌, Option, none, some, List, [], ◌∷◌, ◌==◌,
  str_eq, if◌then◌else◌,
}
use wealthfolio_connect_self.Prelude.Int.{ℤ, pos, negsuc, ltb_ℤ, eq_ℤ}
use wealthfolio_connect_self.Prelude.Time.{hour, is_zero, before, sub_time, negate}
use wealthfolio_connect_self.Prelude.Map.{Map, values}
use wealthfolio_connect_self.Prelude.Search.{find_first, keep}
use wealthfolio_connect_self.Prelude.Sort.{sort_slice}
use wealthfolio_connect_self.Steam.Model.{
  HistoryEvent, InventoryItem, MarketTransaction, TradeAsset, TradeRecord, event_market_buy,
  event_traded, event_received, event_crafted, event_earned, event_market_return,
  acquisition_market_buy, acquisition_trade, acquisition_craft, acquisition_drop,
  acquisition_returned, acquisition_unresolved,
}

-- `set[key]`
unfoldable pub contains : String → List String → Bool
contains key [] = false
contains key (k ∷ ks) = str_eq k key || contains key ks

unfoldable pub is_acquisition_kind : String → Bool
is_acquisition_kind kind =
    str_eq kind event_market_buy
    || str_eq kind event_traded
    || str_eq kind event_received
    || str_eq kind event_crafted
    || str_eq kind event_earned
    || str_eq kind event_market_return

unfoldable pub acquisition_for_kind : String → String
acquisition_for_kind kind =
    if str_eq kind event_market_buy
    then acquisition_market_buy
    else if str_eq kind event_traded || str_eq kind event_received
    then acquisition_trade
    else if str_eq kind event_crafted
    then acquisition_craft
    else if str_eq kind event_earned
    then acquisition_drop
    else if str_eq kind event_market_return
    then acquisition_returned
    else acquisition_unresolved

-- `field != "" && field != wanted`, negated.
abbrev pub fits : String → String → Bool
fits field wanted = str_eq field "" || str_eq field wanted

unfoldable pub abs_duration : ℤ → ℤ
abs_duration d = if ltb_ℤ d (pos 0) then negate d else d

-- `byAsset[assetID]`
unfoldable pub events_of : String → List HistoryEvent → List HistoryEvent
events_of asset_id = keep (λ ev. not (str_eq ev.asset_id "") && str_eq ev.asset_id asset_id)

unfoldable pub event_fits : InventoryItem → HistoryEvent → Bool
event_fits it ev =
    is_acquisition_kind ev.kind
    && fits ev.class_id it.class_id
    && fits ev.market_hash_name it.market_hash_name

unfoldable pub match_event : List HistoryEvent → InventoryItem → Option HistoryEvent
match_event evs it = find_first (event_fits it) evs

unfoldable pub echoes : String → List TradeAsset → Bool
echoes asset_id [] = false
echoes asset_id (a ∷ rest) =
    not (str_eq a.new_asset_id "") && str_eq a.new_asset_id asset_id || echoes asset_id rest

unfoldable pub match_new_asset_id : List TradeRecord → String → Option TradeRecord
match_new_asset_id trades asset_id = find_first (λ tr. echoes asset_id tr.received) trades

-- The order by bytes of Go's strings, which the source compares with `<`.
module _ (text_less : String → String → Bool) where
  unfoldable pub event_before : HistoryEvent → HistoryEvent → Bool
  event_before a b =
      if a.timestamp == b.timestamp
      then text_less a.external_id b.external_id
      else before a.timestamp b.timestamp

  unfoldable pub transaction_before :
      {F : Type 0} → MarketTransaction F → MarketTransaction F → Bool
  transaction_before a b =
      if a.timestamp == b.timestamp
      then text_less a.external_id b.external_id
      else before a.timestamp b.timestamp

-- The events and the transactions that the two loops of `matchMarketPair` do not skip.
unfoldable pub pairs_event : List String → InventoryItem → HistoryEvent → Bool
pairs_event consumed it ev =
    not (contains ev.external_id consumed)
    && is_acquisition_kind ev.kind
    && fits ev.market_hash_name it.market_hash_name

abbrev pub market_window : ℤ
market_window = pos (24 * hour)

-- `bestGap`, with `bestEv` and `bestTx` once they are found.
pub record Best (F : Type 0) : Type 0 where
  pub gap : ℤ
  pub pair : Option (HistoryEvent × MarketTransaction F)

module _ {F : Type 0} where
  unfoldable pub pairs_transaction : InventoryItem → MarketTransaction F → Bool
  pairs_transaction it tx =
      str_eq tx.type "buy"
      && str_eq tx.market_hash_name it.market_hash_name
      && (eq_ℤ tx.quantity it.amount || eq_ℤ tx.quantity (pos 1))

  unfoldable pub gap_of : HistoryEvent → MarketTransaction F → ℤ
  gap_of ev tx = abs_duration (sub_time ev.timestamp tx.timestamp)

  unfoldable pub unconsumed : List String → List (MarketTransaction F) → List (MarketTransaction F)
  unconsumed consumed_tx = keep (λ tx. not (contains tx.external_id consumed_tx))

  abbrev pub no_pair : Best F
  no_pair = record { gap = pos (25 * hour); pair = none }

  -- The body of the inner loop.
  unfoldable pub nearer : InventoryItem → HistoryEvent → MarketTransaction F → Best F → Best F
  nearer it ev tx best =
      let gap = gap_of ev tx in
      if pairs_transaction it tx && not (ltb_ℤ market_window gap) && ltb_ℤ gap best.gap
      then record { gap = gap; pair = some (ev, tx) }
      else best

  unfoldable pub scan_transactions :
      InventoryItem → HistoryEvent → List (MarketTransaction F) → Best F → Best F
  scan_transactions it ev [] best = best
  scan_transactions it ev (tx ∷ txs) best = scan_transactions it ev txs (nearer it ev tx best)

  unfoldable pub scan_events :
      List String → InventoryItem → List (MarketTransaction F) → List HistoryEvent → Best F → Best F
  scan_events consumed it txs [] best = best
  scan_events consumed it txs (ev ∷ evs) best =
      scan_events consumed it txs evs
        (if pairs_event consumed it ev then scan_transactions it ev txs best else best)

  unfoldable pub match_market_pair :
      (String → String → Bool)
      → List HistoryEvent
      → Map (MarketTransaction F)
      → List String
      → List String
      → InventoryItem
      → Option (HistoryEvent × MarketTransaction F)
  match_market_pair text_less events market consumed consumed_tx it =
      let ordered_events = sort_slice (event_before text_less) events in
      let ordered_tx =
        sort_slice (transaction_before text_less) (unconsumed consumed_tx (values market)) in
      (scan_events consumed it ordered_tx ordered_events no_pair).pair

abbrev pub medium_event_window : ℤ
medium_event_window = pos (72 * hour)

unfoldable pub attributes_fit : List String → InventoryItem → ℕ → HistoryEvent → Bool
attributes_fit consumed it now ev =
    not (contains ev.external_id consumed)
    && is_acquisition_kind ev.kind
    && not (
        is_zero ev.timestamp
        || ltb_ℤ medium_event_window (abs_duration (sub_time ev.timestamp now)))
    && fits ev.class_id it.class_id
    && fits ev.instance_id it.instance_id
    && fits ev.market_hash_name it.market_hash_name
    && (eq_ℤ ev.quantity (pos 0) || eq_ℤ ev.quantity it.amount)

unfoldable pub match_attributes :
    List HistoryEvent → List String → InventoryItem → ℕ → Option HistoryEvent
match_attributes events consumed it now = find_first (attributes_fit consumed it now) events
