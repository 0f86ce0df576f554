-- ===== src/Steam/Persist/Failures.antt =====
-- `persistProvenance` of internal/infrastructure/clients/steam/reconcile.go when the inventory is
-- partial or a write fails.
use mathlib.Core.List.{◌++◌}
use wealthfolio_connect_self.Prelude.{
  ℕ, String, true, false, Option, none, some, List, [], ◌∷◌, map, ◌≡◌, refl, ◌∙◌, inl, inr,
  Bool-cases, is_some,
}
use wealthfolio_connect_self.Domain.Error.{Error, Fetched, Action}
use wealthfolio_connect_self.Steam.Model.{SteamAcquisitionRow}
use wealthfolio_connect_self.Steam.Acquisitions.{acquisition_row}
use wealthfolio_connect_self.Steam.Lots.{build_lots}
use wealthfolio_connect_self.Steam.Cursors.{
  SyncCursor, ProvenanceOutcome, CursorJson, steam_cursor_scope, merge_provenance_cursor,
  load_provenance_cursor, decoded_cursor,
}
use wealthfolio_connect_self.Steam.Persist.{
  SteamStore, Pending, SyncRun, Tools, effective, store_provenance_cursor, advance, snapshot_of,
  persist_rows, persist_provenance, write_lots, write_matched, rows_after_snapshot, event_row,
  market_row, trade_row, lot_row, matched_ids,
}
use wealthfolio_connect_self.Persistence.Steam.Snapshots.{SteamInventorySnapshot}
use wealthfolio_connect_self.Persistence.Steam.Imports.{
  SteamEventRow, SteamMarketRow, SteamTradeRow, SteamLotRow,
}

-- A call leaves what `view` sees.
abbrev pub Keeps : {D V : Type 0} → (D → V) → Action D → Type 0
Keeps {D} view m = (d : D) → view (m d).1 ≡ view d

-- The calls that neither replace the lots nor mark events leave what `view` sees.
pub record IsImported {F J D V : Type 0} (store : SteamStore F J D) (view : D → V) : Type 0 where
  pub snapshot : (snap : SteamInventorySnapshot) → Keeps view (store.save_snapshot snap)
  pub events : (id : String) (rows : List SteamEventRow) → Keeps view (store.record_events id rows)
  pub market :
      (id : String) (rows : List (SteamMarketRow F))
      → Keeps view (store.save_market_transactions id rows)
  pub trades :
      (id : String) (rows : List (SteamTradeRow J)) → Keeps view (store.save_trades id rows)
  pub acquisitions :
      (id : String) (rows : List (SteamAcquisitionRow F))
      → Keeps view (store.save_acquisitions id rows)

module _ {F J D V : Type 0} (tools : Tools J) (steam_id : String) (store : SteamStore F J D)
    (view : D → V) (imported : IsImported store view) where
  -- The state in front of the writes of lots, acquisitions and marks.
  abbrev imports : SyncRun F → D → D
  imports s d =
      let d₁ = (store.record_events steam_id (map event_row s.events) d).1 in
      let d₂ = (store.save_market_transactions steam_id (map market_row s.market_txs) d₁).1 in
      (store.save_trades steam_id (map (trade_row tools.trade_json) s.trades) d₂).1

  imports-view : (s : SyncRun F) (d : D) → view (imports s d) ≡ view d
  imports-view s d =
      imported.trades steam_id (map (trade_row tools.trade_json) s.trades)
        (store.save_market_transactions steam_id (map market_row s.market_txs)
          (store.record_events steam_id (map event_row s.events) d).1).1
      ∙ imported.market steam_id (map market_row s.market_txs)
          (store.record_events steam_id (map event_row s.events) d).1
      ∙ imported.events steam_id (map event_row s.events) d

  write_matched-view :
      ((id : String) (ids : List String) → Keeps view (store.mark_events_matched id ids))
      → (s : SyncRun F) (saved : Option Error × D)
      → view (write_matched tools steam_id store s saved) ≡ view saved.1
  write_matched-view marks s (some e, d) = refl
  write_matched-view marks s (none, d) = marks steam_id (matched_ids s.events s.unmatched) d

  write_matched-failed :
      (s : SyncRun F) (saved : Option Error × D)
      → is_some saved.0 ≡ true
      → view (write_matched tools steam_id store s saved) ≡ view saved.1
  write_matched-failed s (some e, d) h = refl
  write_matched-failed s (none, d) h = cc

  rows_after_snapshot-view :
      (now : ℕ) (s : SyncRun F) (pending : Pending) (saved : Option Error × D)
      → ((d : D) → view (persist_rows tools steam_id store now s pending d).0.1 ≡ view d)
      → view (rows_after_snapshot tools steam_id store now s pending saved).0.1 ≡ view saved.1
  rows_after_snapshot-view now s pending (some e, d) rows = refl
  rows_after_snapshot-view now s pending (none, d) rows = rows d

  write_lots-view :
      ((id : String) (rows : List (SteamLotRow F)) → Keeps view (store.save_lots id rows))
      → (s : SyncRun F) (d : D) → view (write_lots tools steam_id store s d) ≡ view d
  write_lots-view lots s d = elim (Bool-cases s.complete) [
    | inl whole ↦ rw whole (lots steam_id (map lot_row (build_lots tools.text_less s.resolved)) d)
    | inr partial ↦ rw partial refl
  ]

  -- A sync of a partial inventory never replaces the lots: what only a write of lots changes is as
  -- before.
  pub persist_provenance-partial :
      ((id : String) (ids : List String) → Keeps view (store.mark_events_matched id ids))
      → (now : ℕ) (s : SyncRun F) (pending : Pending) (d : D) → s.complete ≡ false
      → view (persist_provenance tools steam_id (some store) now s pending d).0.1 ≡ view d
  unfolding persist_provenance persist_rows
  persist_provenance-partial marks now s pending d partial =
      let snap = snapshot_of tools steam_id now s in
      rows_after_snapshot-view now s pending (store.save_snapshot snap d) (λ e. rw partial (
        write_matched-view marks s
          (store.save_acquisitions steam_id (map acquisition_row s.resolved) (imports s e))
        ∙ imported.acquisitions steam_id (map acquisition_row s.resolved) (imports s e)
        ∙ imports-view s e))
      ∙ imported.snapshot snap d

  -- When the acquisitions cannot be saved, no event is marked as matched, so the next run finds
  -- the events of this one again: what only a mark changes is as before.
  pub persist_provenance-retry :
      ((id : String) (rows : List (SteamLotRow F)) → Keeps view (store.save_lots id rows))
      → (now : ℕ) (s : SyncRun F) (pending : Pending) (d : D)
      → ((e : D)
          → is_some (store.save_acquisitions steam_id (map acquisition_row s.resolved) e).0 ≡ true)
      → view (persist_provenance tools steam_id (some store) now s pending d).0.1 ≡ view d
  unfolding persist_provenance persist_rows
  persist_provenance-retry lots now s pending d failing =
      let snap = snapshot_of tools steam_id now s in
      rows_after_snapshot-view now s pending (store.save_snapshot snap d) (λ e.
        let before = write_lots tools steam_id store s (imports s e) in
        write_matched-failed s
          (store.save_acquisitions steam_id (map acquisition_row s.resolved) before)
          (failing before)
        ∙ imported.acquisitions steam_id (map acquisition_row s.resolved) before
        ∙ write_lots-view lots s (imports s e)
        ∙ imports-view s e)
      ∙ imported.snapshot snap d

module _ (json : CursorJson) (get : Option (String → Fetched SyncCursor)) (steam_id : String) where
  -- A source whose rows were not written keeps its walk: where its cursor can be written as JSON, the
  -- one staged for it decodes to the state that was loaded, whatever the outcome of the walk.
  pub advance-failed :
      (base : String) (out : ProvenanceOutcome) (e : Error) (now : ℕ) (pending : Pending)
      (raw : String)
      → json.encode (load_provenance_cursor json get (steam_cursor_scope base steam_id)) ≡ some raw
      → json.decode raw ≡ (load_provenance_cursor json get (steam_cursor_scope base steam_id), true)
      → (cur : SyncCursor) × ((advance json get steam_id base
            (effective (some e) out)
            now
            pending).cursors
          ≡ pending.cursors ++ (cur ∷ []))
        × (cur.scope ≡ steam_cursor_scope base steam_id)
        × (decoded_cursor json cur.position
            ≡ load_provenance_cursor json get (steam_cursor_scope base steam_id))
  unfolding advance store_provenance_cursor merge_provenance_cursor decoded_cursor
  advance-failed base out e now pending raw encoded decoded =
      let scope = steam_cursor_scope base steam_id in
      (
        record { scope = scope; position = raw; complete = false; updated_at = now },
        rw encoded refl,
        refl,
        rw decoded refl,
      )
