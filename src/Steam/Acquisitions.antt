-- ===== src/Steam/Acquisitions.antt =====
-- internal/infrastructure/clients/steam/reconcile.go: `applyStoredAcquisitions` with its ranks, and
-- the rows that `persistProvenance` makes of the resolutions.
pub mod Stronger
use wealthfolio_connect_self.Prelude.{
  ℕ, ◌+◌, String, Bool, true, false, ◌&&◌, ◌||◌, Option, none, some, List, [], ◌∷◌, map, is_some,
  ltb, leb, ◌==◌, str_eq, if◌then◌else◌,
}
use wealthfolio_connect_self.Prelude.Map.{Map, lookup, insert}
use wealthfolio_connect_self.Prelude.Time.{is_zero}
use wealthfolio_connect_self.Steam.Model.{
  InventoryItem, Resolution, SteamAcquisitionRow, match_exact, match_high, match_medium, match_low,
  match_unresolved,
}

unfoldable pub acquisition_rank : String → ℕ
acquisition_rank confidence =
    if str_eq confidence match_exact
    then 4
    else if str_eq confidence match_high
    then 3
    else if str_eq confidence match_medium
    then 2
    else if str_eq confidence match_low
    then 1
    else 0

-- `acquiredAt != nil && !acquiredAt.IsZero()`
abbrev pub is_dated : Option ℕ → Bool
is_dated none = false
is_dated (some t) = if is_zero t then false else true

abbrev pub one_if : Bool → ℕ
one_if true = 1
one_if false = 0

module _ {F : Type 0} where
  unfoldable pub acquisition_evidence_score : Option ℕ → Option F → String → ℕ
  acquisition_evidence_score acquired_at cost ref =
      one_if (is_dated acquired_at) + one_if (is_some cost) + (if str_eq ref "" then 0 else 1)

  abbrev pub score_of : Resolution F → ℕ
  score_of r = acquisition_evidence_score r.acquired_at r.cost_basis r.reference

  abbrev pub stored_score : SteamAcquisitionRow F → ℕ
  stored_score st = acquisition_evidence_score st.acquired_at st.cost_basis st.reference

  -- `byAsset`: of two rows of an asset the later one stays.
  unfoldable pub rows_by_asset :
      List (SteamAcquisitionRow F) → Map (SteamAcquisitionRow F) → Map (SteamAcquisitionRow F)
  rows_by_asset [] by_asset = by_asset
  rows_by_asset (a ∷ acqs) by_asset = rows_by_asset acqs (insert a.asset_id a by_asset)

  -- The three tests that `continue`.
  unfoldable pub keeps_fresh : Resolution F → SteamAcquisitionRow F → Bool
  keeps_fresh r st =
      let fresh_rank = acquisition_rank r.match_confidence in
      let stored_rank = acquisition_rank st.match_confidence in
      str_eq st.match_confidence ""
      || str_eq st.match_confidence match_unresolved
      || ltb stored_rank fresh_rank
      || (fresh_rank == stored_rank && leb (stored_score st) (score_of r))

  unfoldable pub with_stored : Resolution F → Option (SteamAcquisitionRow F) → Resolution F
  with_stored r none = r
  with_stored r (some st) = if keeps_fresh r st then r else record r {
    acquired_at = st.acquired_at;
    type = st.type;
    reference = st.reference;
    cost_basis = st.cost_basis;
    cost_currency = st.cost_currency;
    match_method = st.match_method;
    match_confidence = st.match_confidence;
  }

  unfoldable pub apply_stored_acquisitions :
      List (Resolution F) → List (SteamAcquisitionRow F) → List (Resolution F)
  apply_stored_acquisitions resolved acqs =
      let by_asset = rows_by_asset acqs [] in
      map (λ r. with_stored r (lookup r.asset.asset_id by_asset)) resolved

  -- The row of a resolution.
  unfoldable pub acquisition_row : Resolution F → SteamAcquisitionRow F
  acquisition_row r = record {
    asset_id = r.asset.asset_id;
    market_hash_name = r.asset.market_hash_name;
    acquired_at = r.acquired_at;
    type = r.type;
    reference = r.reference;
    cost_basis = r.cost_basis;
    cost_currency = r.cost_currency;
    match_method = r.match_method;
    match_confidence = r.match_confidence;
  }
