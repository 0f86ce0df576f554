-- ===== src/Persistence/Steam/Table.antt =====
-- What the database promises of the table of the acquisitions that
-- internal/infrastructure/persistence/steam_model.go writes, and of a transaction.
use wealthfolio_connect_self.Prelude.{
  String, ◌&&◌, ◌≡◌, ◌⊎◌, Option, none, some, List, str_eq, is_some, if◌then◌else◌,
}
use wealthfolio_connect_self.Domain.Error.{Error, ok, Action}
use wealthfolio_connect_self.Sync.Persist.{member}
use wealthfolio_connect_self.Persistence.Steam.{SteamAcquisitionPo, SteamTables}

module _ {F : Type 0} where
  -- `ON CONFLICT DO UPDATE SET column = excluded.column` for the given columns. The
  -- row in conflict has the key of the new one.
  unfoldable pub assign_acquisition :
      List String → SteamAcquisitionPo F → SteamAcquisitionPo F → SteamAcquisitionPo F
  assign_acquisition columns new old = record {
    steam_id = new.steam_id;
    asset_id = new.asset_id;
    market_hash_name =
        if member "market_hash_name" columns then new.market_hash_name else old.market_hash_name;
    acquired_at = if member "acquired_at" columns then new.acquired_at else old.acquired_at;
    type = if member "type" columns then new.type else old.type;
    reference = if member "reference" columns then new.reference else old.reference;
    cost_basis = if member "cost_basis" columns then new.cost_basis else old.cost_basis;
    cost_currency = if member "cost_currency" columns then new.cost_currency else old.cost_currency;
    match_method = if member "match_method" columns then new.match_method else old.match_method;
    match_confidence =
        if member "match_confidence" columns then new.match_confidence else old.match_confidence;
  }

  abbrev pub stored_acquisition :
      List String → SteamAcquisitionPo F → Option (SteamAcquisitionPo F) → SteamAcquisitionPo F
  stored_acquisition columns new none = new
  stored_acquisition columns new (some old) = assign_acquisition columns new old

-- The rows, by account and asset. A statement that fails changes nothing; a transaction does what its
-- body does, or fails and changes nothing.
pub record IsSteamTable {F J D : Type 0} (db : SteamTables F J D) : Type 0 where
  pub row : String → String → D → Option (SteamAcquisitionPo F)
  pub first-row :
      (steam_id asset_id : String) (d : D) (found : Option (SteamAcquisitionPo F))
      → db.first_acquisition steam_id asset_id d ≡ ok found
      → found ≡ row steam_id asset_id d
  pub create-row :
      (columns : List String) (new : SteamAcquisitionPo F) (d : D) (steam_id asset_id : String)
      → row steam_id asset_id (db.create_acquisition columns new d).1 ≡ (
          if is_some (db.create_acquisition columns new d).0
          then row steam_id asset_id d
          else if str_eq new.steam_id steam_id && str_eq new.asset_id asset_id
          then some (stored_acquisition columns new (row steam_id asset_id d))
          else row steam_id asset_id d)
  pub commits :
      (body : Action D) (d : D)
      → (db.transaction body d ≡ body d) × ((body d).0 ≡ none)
        ⊎ ((e : Error) × (db.transaction body d ≡ (some e, d)))
