-- ===== src/Steam/Resolve/Grounds.antt =====
-- `resolve` of internal/infrastructure/clients/steam/reconcile.go: what stands behind the confidence
-- of a resolution.
use mathlib.Core.List.{Mem}
use wealthfolio_connect_self.Prelude.{
  ℕ, String, Bool, true, not, ◌&&◌, Option, some, none, if◌then◌else◌, List, [], ◌∷◌, ◌≡◌, ap,
  str_eq, arith, eq_iff,
}
use wealthfolio_connect_self.Prelude.Map.{Map, values}
use wealthfolio_connect_self.Prelude.Time.{is_zero}
use wealthfolio_connect_self.Prelude.Search.{find_first_sound, mem-keep}
use wealthfolio_connect_self.Steam.Model.{
  HistoryEvent, InventoryItem, MarketTransaction, TradeRecord, Resolution, SteamFloats,
  match_snapshot_event, match_new_asset_id_method, match_history_market, match_attributes_only,
  acquisition_trade, acquisition_market_buy, acquisition_unresolved,
}
use wealthfolio_connect_self.Steam.Match.{
  acquisition_for_kind, events_of, event_fits, echoes, match_event, match_new_asset_id,
  match_attributes, attributes_fit,
}
use wealthfolio_connect_self.Steam.Match.Pairing.{IsPairOf, match_market_pair_sound}
use wealthfolio_connect_self.Steam.Resolve.{
  was_absent, unresolved, apply_event, basis_of, take_event, take_trade, take_pair, resolve_item,
  resolve_items, resolve,
}
use wealthfolio_connect_self.Steam.Resolve.Outcome.{Ground, resolve_item-Ground}

-- `byAsset[assetID]` holds events of that asset.
mem-events_of :
    (id : String) (events : List HistoryEvent) (ev : HistoryEvent)
    → Mem ev (events_of id events)
    → Mem ev events × (ev.asset_id ≡ id)
unfolding events_of
mem-events_of id events ev m =
    let (inside, same) =
      mem-keep (λ e. not (str_eq e.asset_id "") && str_eq e.asset_id id) events ev m in
    (inside, ground (arith, same, eq_iff ev.asset_id id))

match_event_sound :
    (events : List HistoryEvent) (it : InventoryItem) (ev : HistoryEvent)
    → match_event (events_of it.asset_id events) it ≡ some ev
    → Mem ev events × (ev.asset_id ≡ it.asset_id) × (event_fits it ev ≡ true)
unfolding match_event
match_event_sound events it ev h =
    let (inside, fit) = find_first_sound (event_fits it) (events_of it.asset_id events) ev h in
    let (among, same) = mem-events_of it.asset_id events ev inside in (among, same, fit)

module _ {F : Type 0} (floats : SteamFloats F) (text_less : String → String → Bool)
    (before : Option (List String)) (events : List HistoryEvent)
    (market : Map (MarketTransaction F)) (trades : List TradeRecord) (now : ℕ) where
  -- A resolution of `it`, field by field.
  abbrev pub answer :
      InventoryItem
      → Option ℕ
      → String
      → String
      → Option F
      → String
      → String
      → String
      → Resolution F
  answer it acquired_at type reference cost_basis cost_currency method confidence = record {
    asset = it;
    acquired_at = acquired_at;
    type = type;
    reference = reference;
    cost_basis = cost_basis;
    cost_currency = cost_currency;
    match_method = method;
    match_confidence = confidence;
  }

  -- The date of an event, when the page gave one.
  abbrev pub dated : HistoryEvent → Option ℕ
  dated ev = if is_zero ev.timestamp then none else some ev.timestamp

  -- What a resolution rests on and says. Only the two exact kinds name the asset's identifier, and
  -- only a purchase gives a cost.
  pub data IsGrounded (it : InventoryItem) (r : Resolution F) : Type 0 where
    by_snapshot :
        (ev : HistoryEvent)
        → was_absent before it.asset_id ≡ true
        → Mem ev events
        → ev.asset_id ≡ it.asset_id
        → event_fits it ev ≡ true
        → r
          ≡ answer it
              (dated ev)
              (acquisition_for_kind ev.kind)
              ev.external_id
              none
              ""
              match_snapshot_event
              "exact"
        → IsGrounded it r
    by_trade :
        (tr : TradeRecord)
        → Mem tr trades
        → echoes it.asset_id tr.received ≡ true
        → r
          ≡ answer it
              (some tr.timestamp)
              acquisition_trade
              tr.trade_id
              none
              ""
              match_new_asset_id_method
              "exact"
        → IsGrounded it r
    by_pair :
        (ev : HistoryEvent) (tx : MarketTransaction F) (consumed : List String)
        → IsPairOf it consumed events (values market) ev tx
        → r
          ≡ answer it
              (dated ev)
              acquisition_market_buy
              tx.external_id
              (some (basis_of floats tx))
              tx.currency
              match_history_market
              "high"
        → IsGrounded it r
    by_attributes :
        (ev : HistoryEvent) (consumed : List String)
        → Mem ev events
        → attributes_fit consumed it now ev ≡ true
        → r
          ≡ answer it
              (dated ev)
              (acquisition_for_kind ev.kind)
              ev.external_id
              none
              ""
              match_attributes_only
              "medium"
        → IsGrounded it r
    open_still :
        r ≡ answer it none acquisition_unresolved "" none "" "unresolved" "unresolved"
        → IsGrounded it r

  currency_kept : (s : String) → (if str_eq s "" then "" else s) ≡ s
  currency_kept s = ground (arith, eq_iff s "")

  resolve_item-IsGrounded :
      (it : InventoryItem) (consumed consumed_tx : List String)
      → IsGrounded it
          (resolve_item floats text_less before events market trades now it consumed
            consumed_tx).resolution
  unfolding match_new_asset_id match_attributes take_event take_trade take_pair apply_event
      unresolved
  resolve_item-IsGrounded it c t =
      elim (resolve_item-Ground floats text_less before events market trades now it c t) [
        | Ground.snapshot ev absent found is ↦
            let (among, same, fit) = match_event_sound events it ev found in
            by_snapshot ev absent among same fit (ap (λ p. p.resolution) is)
        | Ground.trade tr found is ↦
            let (among, echo) =
              find_first_sound (λ r. echoes it.asset_id r.received) trades tr found in
            by_trade tr among echo (ap (λ p. p.resolution) is)
        | Ground.pair ev tx found is ↦
            let (pair, _) = match_market_pair_sound text_less events market c t it ev tx found in
            by_pair ev tx c pair (
              rw (ap (λ p. p.resolution) is) (
                ap
                  (λ s.
                    answer it (dated ev) acquisition_market_buy tx.external_id
                      (some (basis_of floats tx)) s match_history_market "high")
                  (currency_kept tx.currency)))
        | Ground.attributes ev found is ↦
            let (among, fit) = find_first_sound (attributes_fit c it now) events ev found in
            by_attributes ev c among fit (ap (λ p. p.resolution) is)
        | Ground.nothing is ↦ open_still (ap (λ p. p.resolution) is)
      ]

  -- One resolution for each asset, in their order.
  pub AllGrounded : List InventoryItem → List (Resolution F) → Type 0
  AllGrounded [] [] = Unit
  AllGrounded (it ∷ its) (r ∷ rs) = IsGrounded it r × AllGrounded its rs
  AllGrounded _ _ = ⊥

  resolve_items-AllGrounded :
      (owned : List InventoryItem) (consumed consumed_tx : List String)
      → AllGrounded owned
          (resolve_items floats text_less before events market trades now owned consumed
            consumed_tx).0
  unfolding resolve_items AllGrounded
  resolve_items-AllGrounded [] c t = tt
  resolve_items-AllGrounded (it ∷ its) c t =
      let p = resolve_item floats text_less before events market trades now it c t in
      (resolve_item-IsGrounded it c t, resolve_items-AllGrounded its p.consumed p.consumed_tx)

  -- `resolve` answers for every owned asset in order, and every answer rests on evidence of its
  -- kind: `exact` on an acquisition event of an asset that the last snapshot did not have, or on a
  -- trade, that names the asset's own identifier, `high` on an event and a purchase that agree,
  -- `medium` on an event whose attributes fit; without evidence nothing of an acquisition is
  -- claimed.
  pub resolve-AllGrounded :
      (owned : List InventoryItem)
      → AllGrounded owned (resolve floats text_less before events market trades now owned).0
  unfolding resolve
  resolve-AllGrounded owned = resolve_items-AllGrounded owned [] []
