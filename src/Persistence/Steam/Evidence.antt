-- ===== src/Persistence/Steam/Evidence.antt =====
-- internal/infrastructure/persistence/steam_model.go: `SaveAcquisitions` with its ranks, and
-- `AcquisitionsForAssets`.
use wealthfolio_connect_self.Prelude.{
  ℕ, ◌+◌, String, Bool, not, ◌&&◌, Option, none, some, List, [], ◌∷◌, map, is_some, is_empty, ltb,
  leb, ◌==◌, str_eq, if◌then◌else◌,
}
use wealthfolio_connect_self.Domain.Error.{wrapped, Fetched, ok, failed, Action, wrapping}
use wealthfolio_connect_self.Steam.Model.{SteamAcquisitionRow}
use wealthfolio_connect_self.Steam.Acquisitions.{is_dated, one_if}
use wealthfolio_connect_self.Persistence.Steam.{SteamAcquisitionPo, SteamTables}
use wealthfolio_connect_self.Persistence.Steam.Imports.{each}

unfoldable pub confidence_rank : String → ℕ
confidence_rank conf =
    if str_eq conf "exact"
    then 4
    else if str_eq conf "high"
    then 3
    else if str_eq conf "medium"
    then 2
    else if str_eq conf "low"
    then 1
    else 0

abbrev pub acquisition_columns : List String
acquisition_columns =
    "market_hash_name" ∷ "acquired_at" ∷ "type" ∷ "reference" ∷ "cost_basis" ∷ "cost_currency"
    ∷ "match_method" ∷ "match_confidence" ∷ []

module _ {F : Type 0} where
  -- The closure `score`.
  unfoldable pub evidence_fields : Option ℕ → Option F → String → ℕ
  evidence_fields acquired_at cost ref =
      one_if (is_dated acquired_at) + one_if (is_some cost) + (if str_eq ref "" then 0 else 1)

  unfoldable pub stronger_or_equal_acquisition : SteamAcquisitionPo F → SteamAcquisitionRow F → Bool
  stronger_or_equal_acquisition existing next =
      leb (evidence_fields existing.acquired_at existing.cost_basis existing.reference)
        (evidence_fields next.acquired_at next.cost_basis next.reference)

  -- The two tests that `continue`, negated.
  unfoldable pub may_replace : SteamAcquisitionPo F → SteamAcquisitionRow F → Bool
  may_replace existing a =
      let held = confidence_rank existing.match_confidence in
      let new = confidence_rank a.match_confidence in
      not (ltb new held) && not (held == new && not (stronger_or_equal_acquisition existing a))

  unfoldable pub po_of_acquisition : String → SteamAcquisitionRow F → SteamAcquisitionPo F
  po_of_acquisition steam_id a = record {
    steam_id = steam_id;
    asset_id = a.asset_id;
    market_hash_name = a.market_hash_name;
    acquired_at = a.acquired_at;
    type = a.type;
    reference = a.reference;
    cost_basis = a.cost_basis;
    cost_currency = a.cost_currency;
    match_method = a.match_method;
    match_confidence = a.match_confidence;
  }

  unfoldable pub acquisition_of_po : SteamAcquisitionPo F → SteamAcquisitionRow F
  acquisition_of_po po = record {
    asset_id = po.asset_id;
    market_hash_name = po.market_hash_name;
    acquired_at = po.acquired_at;
    type = po.type;
    reference = po.reference;
    cost_basis = po.cost_basis;
    cost_currency = po.cost_currency;
    match_method = po.match_method;
    match_confidence = po.match_confidence;
  }

  module _ {J D : Type 0} (db : SteamTables F J D) where
    abbrev pub write_acquisition : String → SteamAcquisitionRow F → Action D
    write_acquisition steam_id a =
        wrapping "steam acquisitions save"
          (db.create_acquisition acquisition_columns (po_of_acquisition steam_id a))

    -- The loop's body, on what `First` found.
    abbrev pub upgrade :
        String → SteamAcquisitionRow F → Fetched (Option (SteamAcquisitionPo F)) → Action D
    upgrade steam_id a (failed e) d = (some (wrapped "steam acquisitions read" e), d)
    upgrade steam_id a (ok none) d = write_acquisition steam_id a d
    upgrade steam_id a (ok (some existing)) d =
        if may_replace existing a then write_acquisition steam_id a d else (none, d)

    unfoldable pub save_acquisition : String → SteamAcquisitionRow F → Action D
    save_acquisition steam_id a d =
        upgrade steam_id a (db.first_acquisition steam_id a.asset_id d) d

    unfoldable pub save_acquisitions : String → List (SteamAcquisitionRow F) → Action D
    save_acquisitions steam_id acquisitions =
        db.transaction (each (save_acquisition steam_id) acquisitions)

    unfoldable pub acquisitions_for_assets :
        String → List String → D → Fetched (List (SteamAcquisitionRow F))
    acquisitions_for_assets steam_id ids d =
        if is_empty ids then ok [] else elim (db.acquisitions_in steam_id ids d) [
          | failed e ↦ failed (wrapped "steam acquisitions lookup" e)
          | ok pos ↦ ok (map acquisition_of_po pos)
        ]
