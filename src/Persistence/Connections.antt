-- ===== src/Persistence/Connections.antt =====
-- `connectionRepo` of internal/infrastructure/persistence/repositories.go, and the row of
-- internal/infrastructure/persistence/connection_model.go.
use wealthfolio_connect_self.Prelude.{ℕ, String, Bool, List, [], ◌∷◌, map, str_eq, if◌then◌else◌}
use wealthfolio_connect_self.Prelude.Time.{is_zero}
use wealthfolio_connect_self.Domain.Brokerage.{Connection}
use wealthfolio_connect_self.Domain.Error.{wrapped, Fetched, ok, failed, Action, wrapping}

pub record ConnectionPo : Type 0 where
  pub id : String
  pub authorization_id : String
  pub brokerage_name : String
  pub brokerage_slug : String
  pub display_name : String
  pub logo_url : String
  pub square_logo_url : String
  pub disabled : Bool
  pub name : String
  pub status : String
  pub updated_at : ℕ

unfoldable pub connection_to_domain : ConnectionPo → Connection
connection_to_domain p = record {
  id = p.id;
  authorization_id = p.authorization_id;
  brokerage_name = p.brokerage_name;
  brokerage_slug = p.brokerage_slug;
  display_name = p.display_name;
  logo_url = p.logo_url;
  square_logo_url = p.square_logo_url;
  disabled = p.disabled;
  name = p.name;
  status = p.status;
  updated_at = p.updated_at;
}

unfoldable pub connection_from_domain : ℕ → Connection → ConnectionPo
connection_from_domain now c = record {
  id = c.id;
  authorization_id = c.authorization_id;
  brokerage_name = c.brokerage_name;
  brokerage_slug = c.brokerage_slug;
  display_name = c.display_name;
  logo_url = c.logo_url;
  square_logo_url = c.square_logo_url;
  disabled = c.disabled;
  name = c.name;
  status = if str_eq c.status "" then "active" else c.status;
  updated_at = if is_zero c.updated_at then now else c.updated_at;
}

-- The calls of GORM: the rows by `brokerage_slug`, and an INSERT that updates the given columns.
pub record ConnectionTable (D : Type 0) : Type 0 where
  pub find : D → Fetched (List ConnectionPo)
  pub create : List String → ConnectionPo → Action D

abbrev pub connection_conflict_columns : List String
connection_conflict_columns =
    "authorization_id" ∷ "brokerage_name" ∷ "brokerage_slug" ∷ "display_name" ∷ "logo_url"
    ∷ "square_logo_url" ∷ "disabled" ∷ "name" ∷ "status" ∷ "updated_at" ∷ []

abbrev pub all_connections : Fetched (List ConnectionPo) → Fetched (List Connection)
all_connections (ok rows) = ok (map connection_to_domain rows)
all_connections (failed e) = failed (wrapped "connections list" e)

module _ {D : Type 0} (db : ConnectionTable D) where
  unfoldable pub list_connections : D → Fetched (List Connection)
  list_connections d = all_connections (db.find d)

  unfoldable pub upsert_connection : ℕ → Connection → Action D
  upsert_connection now c =
      wrapping "connection upsert"
        (db.create connection_conflict_columns (connection_from_domain now c))
