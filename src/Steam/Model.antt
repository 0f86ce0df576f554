-- ===== src/Steam/Model.antt =====
-- internal/domain/steam/entities.go, with `historyEvent` and `InventoryItem` of
-- internal/infrastructure/clients/steam. `F` stands for `float64`; a string type with named
-- constants is its text, as rows of the database turn into one without a test.
use wealthfolio_connect_self.Prelude.{ℕ, String, Bool, Option, List}
use wealthfolio_connect_self.Prelude.Int.{ℤ}
use wealthfolio_connect_self.Prelude.Map.{Map}

-- `AcquisitionType`
abbrev pub acquisition_market_buy : String
acquisition_market_buy = "steam_market"

abbrev pub acquisition_trade : String
acquisition_trade = "trade"

abbrev pub acquisition_craft : String
acquisition_craft = "craft"

abbrev pub acquisition_drop : String
acquisition_drop = "drop"

abbrev pub acquisition_returned : String
acquisition_returned = "market_returned"

abbrev pub acquisition_unresolved : String
acquisition_unresolved = "unresolved"

-- `MatchConfidence`
abbrev pub match_exact : String
match_exact = "exact"

abbrev pub match_high : String
match_high = "high"

abbrev pub match_medium : String
match_medium = "medium"

abbrev pub match_low : String
match_low = "low"

abbrev pub match_unresolved : String
match_unresolved = "unresolved"

-- `MatchMethod`
abbrev pub match_snapshot_event : String
match_snapshot_event = "snapshot+inventory_history"

abbrev pub match_new_asset_id_method : String
match_new_asset_id_method = "trade_new_assetid"

abbrev pub match_history_market : String
match_history_market = "inventory_history+market_history"

abbrev pub match_attributes_only : String
match_attributes_only = "attributes+proximity"

abbrev pub match_method_unresolved : String
match_method_unresolved = "unresolved"

-- The kinds of a history event.
abbrev pub event_market_buy : String
event_market_buy = "Purchased on Community Market"

abbrev pub event_market_list : String
event_market_list = "Listed on Community Market"

abbrev pub event_market_return : String
event_market_return = "Returned by Community Market"

abbrev pub event_traded : String
event_traded = "Traded"

abbrev pub event_received : String
event_received = "Received"

abbrev pub event_crafted : String
event_crafted = "Crafted"

abbrev pub event_earned : String
event_earned = "Earned"

abbrev pub event_used : String
event_used = "Used"

abbrev pub event_unboxed : String
event_unboxed = "Unboxed"

pub record InventoryItem : Type 0 where
  pub asset_id : String
  pub class_id : String
  pub instance_id : String
  pub amount : ℤ
  pub market_hash_name : String
  pub marketable : Bool
  pub tradable : Bool
  pub name : String
  pub type : String
  pub tags : Map String
  pub has_description : Bool

pub record HistoryEvent : Type 0 where
  pub external_id : String
  pub timestamp : ℕ
  pub kind : String
  pub market_hash_name : String
  pub quantity : ℤ
  pub asset_id : String
  pub class_id : String
  pub instance_id : String

pub record MarketTransaction (F : Type 0) : Type 0 where
  pub external_id : String
  pub type : String
  pub timestamp : ℕ
  pub market_hash_name : String
  pub class_id : String
  pub instance_id : String
  pub quantity : ℤ
  pub gross : F
  pub net : Option F
  pub currency : String

pub record TradeAsset : Type 0 where
  pub asset_id : String
  pub class_id : String
  pub instance_id : String
  pub quantity : ℤ
  pub new_asset_id : String
  pub new_context : String

pub record TradeRecord : Type 0 where
  pub trade_id : String
  pub timestamp : ℕ
  pub other_steam_id : String
  pub status : String
  pub given : List TradeAsset
  pub received : List TradeAsset

pub record AcquisitionLot (F : Type 0) : Type 0 where
  pub id : String
  pub steam_id : String
  pub market_hash_name : String
  pub quantity : ℤ
  pub acquired_at : ℕ
  pub unit_cost : Option F
  pub cost_currency : String
  pub source : String
  pub reference : String

-- The resolver's output for one asset.
pub record Resolution (F : Type 0) : Type 0 where
  pub asset : InventoryItem
  pub acquired_at : Option ℕ
  pub type : String
  pub reference : String
  pub cost_basis : Option F
  pub cost_currency : String
  pub match_method : String
  pub match_confidence : String

-- `repository.SteamAcquisitionRow`
pub record SteamAcquisitionRow (F : Type 0) : Type 0 where
  pub asset_id : String
  pub market_hash_name : String
  pub acquired_at : Option ℕ
  pub type : String
  pub reference : String
  pub cost_basis : Option F
  pub cost_currency : String
  pub match_method : String
  pub match_confidence : String

pub record SteamAsset (F : Type 0) : Type 0 where
  pub steam_id : String
  pub asset_id : String
  pub class_id : String
  pub instance_id : String
  pub market_hash_name : String
  pub amount : ℤ
  pub first_seen_at : ℕ
  pub last_seen_at : ℕ
  pub acquired_at : Option ℕ
  pub acquisition_type : String
  pub acquisition_ref : String
  pub cost_basis : Option F
  pub cost_currency : String
  pub match_method : String
  pub match_confidence : String

pub record PricedAsset (F : Type 0) : Type 0 where
  pub asset : SteamAsset F
  pub current_price : Option F
  pub price_type : String
  pub current_value : Option F
  pub unrealized_pnl : Option F
  pub unrealized_pnl_percent : Option F

-- `float64`, as far as this client uses it. `of_int` is the conversion of an `int`.
pub record SteamFloats (F : Type 0) : Type 0 where
  pub zero : F
  pub hundred : F
  pub of_int : ℤ → F
  pub sub : F → F → F
  pub mul : F → F → F
  pub div : F → F → F
  pub equal : F → F → Bool
  pub less : F → F → Bool
  pub less_equal : F → F → Bool
