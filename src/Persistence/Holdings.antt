-- ===== src/Persistence/Holdings.antt =====
-- `holdingRepo` of internal/infrastructure/persistence/activities.go, and the row of
-- internal/infrastructure/persistence/holdings_model.go.
pub mod RoundTrip
use wealthfolio_connect_self.Prelude.{
  ℕ, String, false, Option, none, some, List, [], ◌∷◌, if◌then◌else◌,
}
use wealthfolio_connect_self.Prelude.Time.{is_zero}
use wealthfolio_connect_self.Domain.Brokerage.{Balance, Position, OptionPosition, Holdings}
use wealthfolio_connect_self.Domain.Error.{
  Error, not_found, wrapped, Fetched, ok, failed, Action, wrap, wrapping,
}

-- A row; `J` is a JSONB value. The columns are NOT NULL and a nil slice is the empty list, so
-- `nonNilJSON` and `orEmpty` have nothing to do here.
pub record HoldingsSnapshotPo (J : Type 0) : Type 0 where
  pub account_id : String
  pub captured_at : ℕ
  pub balances : J
  pub positions : J
  pub options : J

-- `json.Marshal` and `json.Unmarshal` at a type.
pub record Json (J A : Type 0) : Type 0 where
  pub marshal : A → Fetched J
  pub unmarshal : J → Fetched A

pub record HoldingsJson (J F : Type 0) : Type 0 where
  pub balances : Json J (List (Balance F))
  pub positions : Json J (List (Position F))
  pub options : Json J (List (OptionPosition F))

-- The calls of GORM on the table of the snapshots.
pub record HoldingsTable (J D : Type 0) : Type 0 where
  pub first : String → D → Fetched (Option (HoldingsSnapshotPo J))
  pub create : List String → HoldingsSnapshotPo J → Action D

abbrev pub holdings_conflict_columns : List String
holdings_conflict_columns = "captured_at" ∷ "balances" ∷ "positions" ∷ "options" ∷ []

-- `if err != nil { return fmt.Errorf(text, err) }`
abbrev pub bind : {A B : Type 0} → String → Fetched A → (A → Fetched B) → Fetched B
bind text (ok a) f = f a
bind text (failed e) f = failed (wrapped text e)

module _ {J F : Type 0} (json : HoldingsJson J F) where
  -- `ToDomain`
  unfoldable pub holdings_to_domain : HoldingsSnapshotPo J → Fetched (Holdings F)
  holdings_to_domain p =
      bind "holdings balances decode" (json.balances.unmarshal p.balances) λ balances.
        bind "holdings positions decode" (json.positions.unmarshal p.positions) λ positions.
          bind "holdings options decode" (json.options.unmarshal p.options) λ options. ok (record {
            account_id = p.account_id;
            balances = balances;
            positions = positions;
            option_positions = options;
            captured_at = p.captured_at;
            partial = false;
          })

  -- `holdingsFromDomain`, at the clock's reading `now`.
  unfoldable pub holdings_from_domain : ℕ → Holdings F → Fetched (HoldingsSnapshotPo J)
  holdings_from_domain now h =
      bind "holdings balances encode" (json.balances.marshal h.balances) λ balances.
        bind "holdings positions encode" (json.positions.marshal h.positions) λ positions.
          bind "holdings options encode" (json.options.marshal h.option_positions) λ options.
            ok (record {
              account_id = h.account_id;
              captured_at = if is_zero h.captured_at then now else h.captured_at;
              balances = balances;
              positions = positions;
              options = options;
            })

  abbrev pub one_snapshot : Fetched (Option (HoldingsSnapshotPo J)) → Fetched (Holdings F)
  one_snapshot (ok none) = failed not_found
  one_snapshot (ok (some p)) = holdings_to_domain p
  one_snapshot (failed e) = failed (wrapped "holdings get" e)

  module _ {D : Type 0} (db : HoldingsTable J D) where
    unfoldable pub get_latest : String → D → Fetched (Holdings F)
    get_latest account_id d = one_snapshot (db.first account_id d)

    -- `Replace` fills in the time of the capture first, and `holdingsFromDomain` tests it again.
    unfoldable pub replace_holdings : ℕ → Holdings F → Action D
    replace_holdings now h d =
        let stamped = if is_zero h.captured_at then record h { captured_at = now } else h in
        elim (holdings_from_domain now stamped) [
          | failed e ↦ (some e, d)
          | ok po ↦ wrapping "holdings upsert" (db.create holdings_conflict_columns po) d
        ]
