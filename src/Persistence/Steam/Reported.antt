-- ===== src/Persistence/Steam/Reported.antt =====
-- The evidence that a sync reports, and the evidence that it stores: `applyStoredAcquisitions` of
-- internal/infrastructure/clients/steam/reconcile.go with `SaveAcquisitions` of
-- internal/infrastructure/persistence/steam_model.go.
use mathlib.Core.Path.{ap₂}
use wealthfolio_connect_self.Prelude.{
  ℕ, String, true, Option, none, some, List, [], ◌∷◌, map, ◌≡◌, refl, ap, inl, inr, arith, eq_iff,
  str_eq, All,
}
use wealthfolio_connect_self.Prelude.Map.{Map, lookup}
use wealthfolio_connect_self.Steam.Model.{Resolution, SteamAcquisitionRow}
use wealthfolio_connect_self.Steam.Resolve.Distinct.{IsDistinct}
use wealthfolio_connect_self.Steam.Acquisitions.{
  acquisition_rank, acquisition_evidence_score, keeps_fresh, with_stored, rows_by_asset,
  apply_stored_acquisitions, acquisition_row,
}
use wealthfolio_connect_self.Persistence.Steam.{SteamAcquisitionPo, SteamTables}
use wealthfolio_connect_self.Persistence.Steam.Imports.{each}
use wealthfolio_connect_self.Persistence.Steam.Evidence.{
  confidence_rank, evidence_fields, stronger_or_equal_acquisition, may_replace, acquisition_of_po,
  save_acquisition, save_acquisitions,
}
use wealthfolio_connect_self.Persistence.Steam.Table.{IsSteamTable}
use wealthfolio_connect_self.Persistence.Steam.Upgrade.{po_rank, po_score}
use wealthfolio_connect_self.Persistence.Steam.Written.{
  CanReplace, asset_ids, AllStored, save_each-AllStored,
}

rank-same : (s : String) → acquisition_rank s ≡ confidence_rank s
unfolding acquisition_rank confidence_rank
rank-same s = refl

rank-none : (s : String) → str_eq s "" ≡ true → confidence_rank s ≡ 0
unfolding confidence_rank
rank-none s h = let same : s ≡ "" = ground (arith, h, eq_iff s "") in rw same refl

rank-unresolved : (s : String) → str_eq s "unresolved" ≡ true → confidence_rank s ≡ 0
unfolding confidence_rank
rank-unresolved s h =
    let same : s ≡ "unresolved" = ground (arith, h, eq_iff s "unresolved") in rw same refl

module _ {F : Type 0} where
  score-same :
      (t : Option ℕ) (cost : Option F) (ref : String)
      → acquisition_evidence_score t cost ref ≡ evidence_fields t cost ref
  unfolding acquisition_evidence_score evidence_fields
  score-same t cost ref = refl

  -- A row without a confidence has no evidence either.
  abbrev pub IsHonest : SteamAcquisitionPo F → Type 0
  IsHonest po = po_rank po ≡ 0 → po_score po ≡ 0

  abbrev pub AllHonest : Option (SteamAcquisitionPo F) → Type 0
  AllHonest none = Unit
  AllHonest (some po) = IsHonest po

  abbrev pub row_of : Option (SteamAcquisitionPo F) → Option (SteamAcquisitionRow F)
  row_of none = none
  row_of (some po) = some (acquisition_of_po po)

  -- What is reported for an asset may replace what is stored.
  merged-may_replace :
      (r : Resolution F) (existing : SteamAcquisitionPo F)
      → IsHonest existing
      → may_replace existing (acquisition_row (with_stored r (some (acquisition_of_po existing))))
        ≡ true
  unfolding may_replace stronger_or_equal_acquisition with_stored keeps_fresh acquisition_row
      acquisition_of_po
  merged-may_replace r existing honest =
      let conf = existing.match_confidence in
      ground (
        arith,
        honest,
        rank-same conf,
        rank-same r.match_confidence,
        rank-none conf,
        rank-unresolved conf,
        score-same existing.acquired_at existing.cost_basis existing.reference,
        score-same r.acquired_at r.cost_basis r.reference,
      )

  merged-CanReplace :
      (r : Resolution F) (held : Option (SteamAcquisitionPo F))
      → AllHonest held
      → CanReplace held (acquisition_row (with_stored r (row_of held)))
  merged-CanReplace r none honest = tt
  merged-CanReplace r (some existing) honest = merged-may_replace r existing honest

  with_stored-asset :
      (r : Resolution F) (st : Option (SteamAcquisitionRow F))
      → (acquisition_row (with_stored r st)).asset_id ≡ r.asset.asset_id
  unfolding with_stored acquisition_row
  with_stored-asset r none = refl
  with_stored-asset r (some st) = ground arith

  abbrev pub owned_ids : List (Resolution F) → List String
  owned_ids [] = []
  owned_ids (r ∷ rs) = r.asset.asset_id ∷ owned_ids rs

  -- The rows that `persistProvenance` saves of the merged resolutions.
  abbrev pub reported_rows :
      List (Resolution F) → List (SteamAcquisitionRow F) → List (SteamAcquisitionRow F)
  reported_rows resolved acqs = map acquisition_row (apply_stored_acquisitions resolved acqs)

  module _ {J D : Type 0} (db : SteamTables F J D) (table : IsSteamTable db)
      (steam_id : String) where
    -- The acquisitions that were read are those of the table.
    abbrev pub IsRead : Map (SteamAcquisitionRow F) → List (Resolution F) → D → Type 0
    IsRead by_asset [] d = Unit
    IsRead by_asset (r ∷ rs) d =
        (lookup r.asset.asset_id by_asset ≡ row_of (table.row steam_id r.asset.asset_id d))
        × IsRead by_asset rs d

    reported : Map (SteamAcquisitionRow F) → List (Resolution F) → List (SteamAcquisitionRow F)
    reported by_asset rs =
        map acquisition_row (map (λ r. with_stored r (lookup r.asset.asset_id by_asset)) rs)

    reported-ids :
        (by_asset : Map (SteamAcquisitionRow F)) (rs : List (Resolution F))
        → asset_ids db table steam_id (reported by_asset rs) ≡ owned_ids rs
    unfolding reported asset_ids
    reported-ids by_asset [] = refl
    reported-ids by_asset (r ∷ rs) =
        ap₂ ◌∷◌ (with_stored-asset r (lookup r.asset.asset_id by_asset)) (reported-ids by_asset rs)

    reported-CanReplace :
        (by_asset : Map (SteamAcquisitionRow F)) (rs : List (Resolution F)) (d : D)
        → IsRead by_asset rs d
        → ((id : String) → AllHonest (table.row steam_id id d))
        → All (λ a. CanReplace (table.row steam_id a.asset_id d) a) (reported by_asset rs)
    unfolding reported
    reported-CanReplace by_asset [] d read honest = tt
    reported-CanReplace by_asset (r ∷ rs) d read honest =
        let id = r.asset.asset_id in
        let held = table.row steam_id id d in
        let same = ap (λ i. table.row steam_id i d) (with_stored-asset r (row_of held)) in
        (
          rw read.0 (rw same (merged-CanReplace r held (honest id))),
          reported-CanReplace by_asset rs d read.1 honest,
        )

    -- After a sync whose acquisitions were read as they are stored and saved without an error, of
    -- assets with distinct identifiers, the table holds for each asset just what the sync reports
    -- for it: the merge of the reading side and the upgrade rule of the writing side agree on the
    -- winner, as long as no stored row has evidence without a confidence.
    pub apply_stored_acquisitions-AllStored :
        (resolved : List (Resolution F)) (acqs : List (SteamAcquisitionRow F)) (d : D)
        → IsRead (rows_by_asset acqs []) resolved d
        → ((id : String) → AllHonest (table.row steam_id id d))
        → IsDistinct (owned_ids resolved)
        → (save_acquisitions db steam_id (reported_rows resolved acqs) d).0 ≡ none
        → AllStored db table steam_id
            (reported_rows resolved acqs)
            (save_acquisitions db steam_id (reported_rows resolved acqs) d).1
    unfolding apply_stored_acquisitions save_acquisitions reported
    apply_stored_acquisitions-AllStored resolved acqs d read honest distinct fine =
        let by_asset = rows_by_asset acqs [] in
        let rows = reported by_asset resolved in
        elim (table.commits (each (save_acquisition db steam_id) rows) d) [
          | inr (e, rolled_back) ↦ ground (arith, fine, rolled_back)
          | inl (same, saved) ↦ rw same (
              save_each-AllStored db table steam_id rows d saved
                (reported-CanReplace by_asset resolved d read honest)
                (rw (reported-ids by_asset resolved) distinct))
        ]
