-- ===== src/Steam/Resolve/Outcome.antt =====
-- The loop body of `resolve`, internal/infrastructure/clients/steam/reconcile.go: the five ways in
-- which it ends.
use wealthfolio_connect_self.Prelude.{
  ℕ, String, Bool, true, Option, some, List, ◌≡◌, refl, inl, inr, Bool-cases, Option-cases,
}
use wealthfolio_connect_self.Prelude.Map.{Map}
use wealthfolio_connect_self.Steam.Model.{
  HistoryEvent, InventoryItem, MarketTransaction, TradeRecord, SteamFloats, match_exact,
  match_medium, match_snapshot_event, match_attributes_only,
}
use wealthfolio_connect_self.Steam.Match.{
  events_of, match_event, match_new_asset_id, match_market_pair, match_attributes,
}
use wealthfolio_connect_self.Steam.Resolve.{
  Progress, was_absent, unresolved, apply_event, take_event, take_trade, take_pair, snapshot_path,
  trade_path, market_path, attribute_path, resolve_item,
}

module _ {F : Type 0} (floats : SteamFloats F) (text_less : String → String → Bool)
    (before : Option (List String)) (events : List HistoryEvent)
    (market : Map (MarketTransaction F)) (trades : List TradeRecord) (now : ℕ) (it : InventoryItem)
    (consumed consumed_tx : List String) where
  abbrev pub start : Progress F
  start = record { resolution = unresolved it; consumed = consumed; consumed_tx = consumed_tx }

  pub data Ground (p : Progress F) : Type 0 where
    snapshot :
        (ev : HistoryEvent)
        → was_absent before it.asset_id ≡ true
        → match_event (events_of it.asset_id events) it ≡ some ev
        → p ≡ take_event start match_snapshot_event match_exact (some ev)
        → Ground p
    trade :
        (tr : TradeRecord)
        → match_new_asset_id trades it.asset_id ≡ some tr
        → p ≡ take_trade start (some tr)
        → Ground p
    pair :
        (ev : HistoryEvent) (tx : MarketTransaction F)
        → match_market_pair text_less events market consumed consumed_tx it ≡ some (ev, tx)
        → p ≡ take_pair floats start (some (ev, tx))
        → Ground p
    attributes :
        (ev : HistoryEvent)
        → match_attributes events consumed it now ≡ some ev
        → p ≡ take_event start match_attributes_only match_medium (some ev)
        → Ground p
    nothing : p ≡ start → Ground p

  abbrev attribute_remaining : Progress F → Progress F
  attribute_remaining p = attribute_path floats text_less before events market trades now it (
      market_path floats text_less before events market trades now it
        (trade_path floats text_less before events market trades now it p))

  without_snapshot : Ground (attribute_remaining start)
  unfolding attribute_path market_path trade_path take_event take_trade take_pair unresolved
      apply_event
  without_snapshot = elim (Option-cases (match_new_asset_id trades it.asset_id)) [
    | inr (tr, found) ↦ rw found (trade tr found refl)
    | inl no_trade ↦
        elim (Option-cases (match_market_pair text_less events market consumed consumed_tx it)) [
          | inr ((ev, tx), found) ↦ rw (no_trade, found) (pair ev tx found refl)
          | inl no_pair ↦ elim (Option-cases (match_attributes events consumed it now)) [
            | inr (ev, found) ↦ rw (no_trade, no_pair, found) (attributes ev found refl)
            | inl none_at_all ↦ rw (no_trade, no_pair, none_at_all) (nothing refl)
          ]
        ]
  ]

  pub resolve_item-Ground :
      Ground (resolve_item floats text_less before events market trades now it consumed consumed_tx)
  unfolding resolve_item snapshot_path attribute_path market_path trade_path take_event apply_event
  resolve_item-Ground = elim (Bool-cases (was_absent before it.asset_id)) [
    | inr held ↦ rw held without_snapshot
    | inl absent ↦ elim (Option-cases (match_event (events_of it.asset_id events) it)) [
      | inl no_event ↦ rw (absent, no_event) without_snapshot
      | inr (ev, found) ↦ rw (absent, found) (snapshot ev absent found refl)
    ]
  ]
