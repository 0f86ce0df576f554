-- ===== src/Steam/Persist.antt =====
-- `persistProvenance` of internal/infrastructure/clients/steam/reconcile.go,
-- over the repository's interface.
pub mod Failures
use Prim.Native.String.{◌++◌}
use mathlib.Core.List.{◌++◌ as ◌+++◌}
use wealthfolio_connect_self.Prelude.{
  ℕ, String, Bool, true, false, not, ◌&&◌, Option, none, some, List, [], ◌∷◌, map, is_empty,
  is_some, str_eq, leb, if◌then◌else◌,
}
use wealthfolio_connect_self.Prelude.Time.{is_zero, after}
use wealthfolio_connect_self.Prelude.Map.{Map}
use wealthfolio_connect_self.Prelude.Search.{keep}
use wealthfolio_connect_self.Domain.Error.{
  Error, is_not_found, wrapped, Fetched, ok, failed, Action,
}
use wealthfolio_connect_self.Steam.Model.{
  HistoryEvent, InventoryItem, MarketTransaction, TradeRecord, TradeAsset, Resolution,
  AcquisitionLot, SteamAcquisitionRow,
}
use wealthfolio_connect_self.Steam.Match.{contains}
use wealthfolio_connect_self.Steam.Acquisitions.{acquisition_row}
use wealthfolio_connect_self.Steam.Lots.{build_lots}
use wealthfolio_connect_self.Steam.Cursors.{
  SyncCursor, ProvenanceCursor, ProvenanceOutcome, ProvenanceOutcomes, CursorJson, no_outcome,
  cursor_scope_inventory, cursor_scope_history, cursor_scope_market, cursor_scope_trades,
  cursor_scope_empty_probe, steam_cursor_scope, merge_provenance_cursor, load_provenance_cursor,
}
use wealthfolio_connect_self.Persistence.Steam.Snapshots.{SteamAssetRow, SteamInventorySnapshot}
use wealthfolio_connect_self.Persistence.Steam.Imports.{
  SteamEventRow, SteamMarketRow, SteamTradeRow, SteamLotRow,
}

-- `repository.SteamAssetRepository`, as far as the client calls it.
pub record SteamStore (F J D : Type 0) : Type 0 where
  pub latest_snapshot : String → D → Fetched SteamInventorySnapshot
  pub save_snapshot : SteamInventorySnapshot → Action D
  pub record_events : String → List SteamEventRow → Action D
  pub unmatched_events : String → D → Fetched (List SteamEventRow)
  pub mark_events_matched : String → List String → Action D
  pub save_market_transactions : String → List (SteamMarketRow F) → Action D
  pub save_trades : String → List (SteamTradeRow J) → Action D
  pub save_lots : String → List (SteamLotRow F) → Action D
  pub save_acquisitions : String → List (SteamAcquisitionRow F) → Action D
  pub acquisitions_for_assets : String → List String → D → Fetched (List (SteamAcquisitionRow F))

unfoldable pub asset_row : InventoryItem → SteamAssetRow
asset_row it = record {
  asset_id = it.asset_id;
  class_id = it.class_id;
  instance_id = it.instance_id;
  market_hash_name = it.market_hash_name;
  amount = it.amount;
}

unfoldable pub event_row : HistoryEvent → SteamEventRow
event_row ev = record {
  external_id = ev.external_id;
  timestamp = ev.timestamp;
  kind = ev.kind;
  market_hash_name = ev.market_hash_name;
  quantity = ev.quantity;
  asset_id = ev.asset_id;
  matched = false;
}

unfoldable pub market_row : {F : Type 0} → MarketTransaction F → SteamMarketRow F
market_row tx = record {
  external_id = tx.external_id;
  type = tx.type;
  timestamp = tx.timestamp;
  market_hash_name = tx.market_hash_name;
  class_id = "";
  instance_id = "";
  quantity = tx.quantity;
  gross = tx.gross;
  net = tx.net;
  currency = tx.currency;
}

unfoldable pub trade_row : {J : Type 0} → (List TradeAsset → J) → TradeRecord → SteamTradeRow J
trade_row json tr = record {
  trade_id = tr.trade_id;
  timestamp = tr.timestamp;
  other_steam_id = tr.other_steam_id;
  status = tr.status;
  given = json tr.given;
  received = json tr.received;
}

unfoldable pub lot_row : {F : Type 0} → AcquisitionLot F → SteamLotRow F
lot_row l = record {
  id = l.id;
  market_hash_name = l.market_hash_name;
  quantity = l.quantity;
  acquired_at = l.acquired_at;
  unit_cost = l.unit_cost;
  cost_currency = l.cost_currency;
  source = l.source;
  reference = l.reference;
}

abbrev pub external_ids : List HistoryEvent → List String
external_ids evs = map (λ ev. ev.external_id) evs

-- `matched`: the events that are not among the unmatched ones.
unfoldable pub matched_ids : List HistoryEvent → List HistoryEvent → List String
matched_ids events unmatched =
    external_ids (keep (λ ev. not (contains ev.external_id (external_ids unmatched))) events)

-- `if writeErr != nil { eff = provenanceOutcome{} }`
abbrev pub effective : Option Error → ProvenanceOutcome → ProvenanceOutcome
effective none out = out
effective (some e) out = no_outcome

-- What the client keeps for `SnapshotCommitted`.
pub record Pending : Type 0 where
  pub cursors : List SyncCursor
  pub dirty : Bool

module _ (json : CursorJson) (get : Option (String → Fetched SyncCursor)) (steam_id : String) where
  -- On the JSON of a cursor; one that has none is not staged.
  abbrev pub with_cursor : String → Bool → ℕ → Pending → Option String → Pending
  with_cursor scope complete now pending none = pending
  with_cursor scope complete now pending (some raw) = record {
    cursors =
        pending.cursors
        +++ (record { scope = scope; position = raw; complete = complete; updated_at = now } ∷ []);
    dirty = true;
  }

  unfoldable pub store_provenance_cursor : String → ProvenanceCursor → Bool → ℕ → Pending → Pending
  store_provenance_cursor scope pc complete now pending =
      with_cursor scope complete now pending (json.encode pc)

  -- One source: its durable state, with the outcome of this run.
  unfoldable pub advance : String → ProvenanceOutcome → ℕ → Pending → Pending
  advance base out now pending =
      let scope = steam_cursor_scope base steam_id in
      store_provenance_cursor scope
        (merge_provenance_cursor (load_provenance_cursor json get scope) out) out.complete now
        pending

  -- The inventory's own cursor is listed first; `dirty` stays as it is until a source is stored.
  unfoldable pub staged :
      Bool → ℕ → Bool → Option Error → Option Error → Option Error → ProvenanceOutcomes → Pending
  staged dirty now complete events_err market_err trades_err out =
      let inventory : SyncCursor = record {
        scope = steam_cursor_scope cursor_scope_inventory steam_id;
        position = json.format_rfc3339 now;
        complete = complete;
        updated_at = now;
      } in
      advance cursor_scope_trades (effective trades_err out.trades) now (
        advance cursor_scope_market (effective market_err out.market) now (
          advance cursor_scope_history (effective events_err out.history) now
            (record { cursors = inventory ∷ []; dirty = dirty })))

-- The arguments of `persistProvenance` besides the events and the resolutions.
pub record SyncRun (F : Type 0) : Type 0 where
  pub items : List InventoryItem
  pub complete : Bool
  pub outcomes : ProvenanceOutcomes
  pub events : List HistoryEvent
  pub market_txs : List (MarketTransaction F)
  pub trades : List TradeRecord
  pub resolved : List (Resolution F)
  pub unmatched : List HistoryEvent

-- What `persistProvenance` calls besides the store: JSON of the sides of a trade, the stamp of a
-- snapshot's identifier, the order of texts and the cursors.
pub record Tools (J : Type 0) : Type 0 where
  pub trade_json : List TradeAsset → J
  pub stamp : ℕ → String
  pub text_less : String → String → Bool
  pub json : CursorJson
  pub get : Option (String → Fetched SyncCursor)

module _ {F J : Type 0} (tools : Tools J) (steam_id : String) where
  unfoldable pub snapshot_of : ℕ → SyncRun F → SteamInventorySnapshot
  snapshot_of now s = record {
    id = "steam:" ++ steam_id ++ ":" ++ tools.stamp now;
    steam_id = steam_id;
    taken_at = now;
    complete = s.complete;
    assets = map asset_row s.items;
  }

  module _ {D : Type 0} (store : SteamStore F J D) where
    abbrev pub write_lots : SyncRun F → D → D
    write_lots s d =
        if s.complete
        then (store.save_lots steam_id (map lot_row (build_lots tools.text_less s.resolved)) d).1
        else d

    -- On the result of `SaveAcquisitions`.
    abbrev pub write_matched : SyncRun F → Option Error × D → D
    write_matched s (some e, d) = d
    write_matched s (none, d) =
        (store.mark_events_matched steam_id (matched_ids s.events s.unmatched) d).1

    -- The writes after the snapshot.
    unfoldable pub persist_rows : ℕ → SyncRun F → Pending → D → (Option Error × D) × Pending
    persist_rows now s pending d =
        let (events_err, d₁) = store.record_events steam_id (map event_row s.events) d in
        let (market_err, d₂) =
          store.save_market_transactions steam_id (map market_row s.market_txs) d₁ in
        let (trades_err, d₃) =
          store.save_trades steam_id (map (trade_row tools.trade_json) s.trades) d₂ in
        let d₄ = write_lots s d₃ in
        let d₅ =
          write_matched s (store.save_acquisitions steam_id (map acquisition_row s.resolved) d₄) in
        (
          (none, d₅),
          staged tools.json tools.get steam_id pending.dirty now s.complete events_err market_err
              trades_err s.outcomes,
        )

    -- On the result of `SaveSnapshot`.
    abbrev pub rows_after_snapshot :
        ℕ → SyncRun F → Pending → Option Error × D → (Option Error × D) × Pending
    rows_after_snapshot now s pending (some e, d) =
        ((some (wrapped "steam: snapshot save" e), d), pending)
    rows_after_snapshot now s pending (none, d) = persist_rows now s pending d

  unfoldable pub persist_provenance :
      {D : Type 0}
      → Option (SteamStore F J D)
      → ℕ
      → SyncRun F
      → Pending
      → D
      → (Option Error × D) × Pending
  persist_provenance none now s pending d = ((none, d), pending)
  persist_provenance (some store) now s pending d =
      rows_after_snapshot store now s pending (store.save_snapshot (snapshot_of now s) d)
