-- ===== src/Persistence/Steam/Snapshots.antt =====
-- internal/infrastructure/persistence/steam_model.go: `LatestSnapshot`, `SaveSnapshot` and
-- `CurrentAssets`.
use wealthfolio_connect_self.Prelude.{
  ℕ, String, Bool, Option, none, some, List, [], ◌∷◌, map, is_empty, if◌then◌else◌,
}
use wealthfolio_connect_self.Prelude.Int.{ℤ}
use wealthfolio_connect_self.Prelude.Map.{Map, lookup, insert}
use wealthfolio_connect_self.Domain.Error.{
  not_found, wrapped, Fetched, ok, failed, Action, done, wrapping, ◌>>◌,
}
use wealthfolio_connect_self.Persistence.Steam.{
  SteamSnapshotPo, SteamSnapshotAssetPo, SteamAcquisitionPo, SteamTables,
}

-- `repository.SteamAssetRow` and `repository.SteamInventorySnapshot`
pub record SteamAssetRow : Type 0 where
  pub asset_id : String
  pub class_id : String
  pub instance_id : String
  pub market_hash_name : String
  pub amount : ℤ

pub record SteamInventorySnapshot : Type 0 where
  pub id : String
  pub steam_id : String
  pub taken_at : ℕ
  pub complete : Bool
  pub assets : List SteamAssetRow

pub record SteamAssetState (F : Type 0) : Type 0 where
  pub asset : SteamAssetRow
  pub first_seen_at : ℕ
  pub last_seen_at : ℕ
  pub acquired_at : Option ℕ
  pub type : String
  pub reference : String
  pub cost_basis : Option F
  pub cost_currency : String
  pub match_method : String
  pub match_confidence : String

unfoldable pub asset_of_po : SteamSnapshotAssetPo → SteamAssetRow
asset_of_po row = record {
  asset_id = row.asset_id;
  class_id = row.class_id;
  instance_id = row.instance_id;
  market_hash_name = row.market_hash_name;
  amount = row.amount;
}

unfoldable pub po_of_asset : String → SteamAssetRow → SteamSnapshotAssetPo
po_of_asset snapshot_id a = record {
  snapshot_id = snapshot_id;
  asset_id = a.asset_id;
  class_id = a.class_id;
  instance_id = a.instance_id;
  market_hash_name = a.market_hash_name;
  amount = a.amount;
}

unfoldable pub snapshot_of_po :
    SteamSnapshotPo → Fetched (List SteamSnapshotAssetPo) → Fetched SteamInventorySnapshot
snapshot_of_po snap (failed e) = failed (wrapped "steam snapshot assets" e)
snapshot_of_po snap (ok rows) = ok (record {
  id = snap.id;
  steam_id = snap.steam_id;
  taken_at = snap.taken_at;
  complete = snap.complete;
  assets = map asset_of_po rows;
})

module _ {F : Type 0} where
  unfoldable pub no_acquisition : ℕ → SteamSnapshotAssetPo → SteamAssetState F
  no_acquisition taken_at row = record {
    asset = asset_of_po row;
    first_seen_at = taken_at;
    last_seen_at = taken_at;
    acquired_at = none;
    type = "";
    reference = "";
    cost_basis = none;
    cost_currency = "";
    match_method = "";
    match_confidence = "";
  }

  unfoldable pub with_acquisition :
      SteamAssetState F → Option (SteamAcquisitionPo F) → SteamAssetState F
  with_acquisition st none = st
  with_acquisition st (some a) = record st {
    acquired_at = a.acquired_at;
    type = a.type;
    reference = a.reference;
    cost_basis = a.cost_basis;
    cost_currency = a.cost_currency;
    match_method = a.match_method;
    match_confidence = a.match_confidence;
  }

  unfoldable pub acquisitions_by_asset :
      List (SteamAcquisitionPo F) → Map (SteamAcquisitionPo F) → Map (SteamAcquisitionPo F)
  acquisitions_by_asset [] by_asset = by_asset
  acquisitions_by_asset (a ∷ acqs) by_asset =
      acquisitions_by_asset acqs (insert a.asset_id a by_asset)

  -- The join of the rows of a snapshot with the acquisitions.
  unfoldable pub states_of :
      ℕ
      → Fetched (List SteamSnapshotAssetPo)
      → Fetched (List (SteamAcquisitionPo F))
      → Fetched (List (SteamAssetState F))
  states_of taken_at (failed e) _ = failed (wrapped "steam current assets" e)
  states_of taken_at (ok rows) (failed e) = failed (wrapped "steam current acquisitions" e)
  states_of taken_at (ok rows) (ok acqs) =
      let by_asset = acquisitions_by_asset acqs [] in
      ok (
        map (λ row. with_acquisition (no_acquisition taken_at row) (lookup row.asset_id by_asset))
          rows)

  module _ {J D : Type 0} (db : SteamTables F J D) where
    unfoldable pub latest_snapshot : String → D → Fetched SteamInventorySnapshot
    latest_snapshot steam_id d = elim (db.first_snapshot steam_id d) [
      | failed e ↦ failed (wrapped "steam snapshot get" e)
      | ok none ↦ failed not_found
      | ok (some snap) ↦ snapshot_of_po snap (db.snapshot_assets snap.id d)
    ]

    unfoldable pub save_snapshot : SteamInventorySnapshot → Action D
    save_snapshot snap = db.transaction (
        wrapping "steam snapshot save" (
          db.create_snapshot (record {
            id = snap.id;
            steam_id = snap.steam_id;
            taken_at = snap.taken_at;
            complete = snap.complete;
          }))
        >> (if is_empty snap.assets
            then done
            else wrapping "steam snapshot assets save"
                (db.create_assets (map (po_of_asset snap.id) snap.assets))))

    unfoldable pub current_assets : String → D → Fetched (List (SteamAssetState F))
    current_assets steam_id d = elim (db.first_snapshot steam_id d) [
      | failed e ↦ failed (wrapped "steam current snapshot" e)
      | ok none ↦ failed not_found
      | ok (some snap) ↦
          states_of snap.taken_at (db.snapshot_assets snap.id d) (db.acquisitions steam_id d)
    ]
