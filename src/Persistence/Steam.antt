-- ===== src/Persistence/Steam.antt =====
-- internal/infrastructure/persistence/steam_model.go: the rows of the Steam tables, and the calls of
-- GORM on them. The operations of `steamAssetRepo` are in Snapshots, Imports and Evidence.
pub mod Snapshots
pub mod Imports
pub mod Evidence
pub mod Table
pub mod Upgrade
pub mod Written
pub mod Reported
mod Tests
use wealthfolio_connect_self.Prelude.{ℕ, String, Bool, Option, List}
use wealthfolio_connect_self.Prelude.Int.{ℤ}
use wealthfolio_connect_self.Domain.Error.{Fetched, Action}

pub record SteamSnapshotPo : Type 0 where
  pub id : String
  pub steam_id : String
  pub taken_at : ℕ
  pub complete : Bool

pub record SteamSnapshotAssetPo : Type 0 where
  pub snapshot_id : String
  pub asset_id : String
  pub class_id : String
  pub instance_id : String
  pub market_hash_name : String
  pub amount : ℤ

pub record SteamEventPo : Type 0 where
  pub steam_id : String
  pub external_id : String
  pub timestamp : ℕ
  pub kind : String
  pub market_hash_name : String
  pub quantity : ℤ
  pub asset_id : String
  pub matched : Bool

pub record SteamMarketTxPo (F : Type 0) : Type 0 where
  pub steam_id : String
  pub external_id : String
  pub type : String
  pub timestamp : ℕ
  pub market_hash_name : String
  pub class_id : String
  pub instance_id : String
  pub quantity : ℤ
  pub gross : F
  pub net : Option F
  pub currency : String

-- `J` is a JSONB value.
pub record SteamTradePo (J : Type 0) : Type 0 where
  pub steam_id : String
  pub trade_id : String
  pub timestamp : ℕ
  pub other_steam_id : String
  pub status : String
  pub given : J
  pub received : J

pub record SteamLotPo (F : Type 0) : Type 0 where
  pub steam_id : String
  pub id : String
  pub market_hash_name : String
  pub quantity : ℤ
  pub acquired_at : ℕ
  pub unit_cost : Option F
  pub cost_currency : String
  pub source : String
  pub reference : String

pub record SteamAcquisitionPo (F : Type 0) : Type 0 where
  pub steam_id : String
  pub asset_id : String
  pub market_hash_name : String
  pub acquired_at : Option ℕ
  pub type : String
  pub reference : String
  pub cost_basis : Option F
  pub cost_currency : String
  pub match_method : String
  pub match_confidence : String

-- The calls of GORM: the newest complete snapshot of an account and the assets of a snapshot; INSERTs,
-- those of events, purchases and trades with ON CONFLICT DO NOTHING; the unmatched events by time, and
-- the UPDATE that matches some; the lots of an account; the acquisition of an asset, those of an
-- account and those of some assets, and an INSERT that updates the given columns of a row that is
-- there; and a transaction around a body.
pub record SteamTables (F J D : Type 0) : Type 0 where
  pub first_snapshot : String → D → Fetched (Option SteamSnapshotPo)
  pub snapshot_assets : String → D → Fetched (List SteamSnapshotAssetPo)
  pub create_snapshot : SteamSnapshotPo → Action D
  pub create_assets : List SteamSnapshotAssetPo → Action D
  pub create_event : SteamEventPo → Action D
  pub unmatched : String → D → Fetched (List SteamEventPo)
  pub update_matched : String → List String → Action D
  pub create_market_tx : SteamMarketTxPo F → Action D
  pub create_trade : SteamTradePo J → Action D
  pub delete_lots : String → Action D
  pub create_lot : SteamLotPo F → Action D
  pub first_acquisition : String → String → D → Fetched (Option (SteamAcquisitionPo F))
  pub acquisitions : String → D → Fetched (List (SteamAcquisitionPo F))
  pub acquisitions_in : String → List String → D → Fetched (List (SteamAcquisitionPo F))
  pub create_acquisition : List String → SteamAcquisitionPo F → Action D
  pub transaction : Action D → Action D
