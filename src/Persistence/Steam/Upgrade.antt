-- ===== src/Persistence/Steam/Upgrade.antt =====
-- `SaveAcquisitions` of internal/infrastructure/persistence/steam_model.go: what it leaves in a row.
use wealthfolio_connect_self.Prelude.{
  ℕ, String, true, Option, none, some, List, [], ◌∷◌, ◌≡◌, refl, sym, ap, inl, inr, arith, eq_iff,
  str_eq, is_some, if◌then◌else◌, Bool-cases, Option-cases,
}
use wealthfolio_connect_self.Domain.Error.{Error, Action, Fetched-cases, next}
use wealthfolio_connect_self.Sync.Persist.{member}
use wealthfolio_connect_self.Steam.Model.{SteamAcquisitionRow}
use wealthfolio_connect_self.Steam.Acquisitions.Stronger.{NotWeaker}
use wealthfolio_connect_self.Persistence.Steam.{SteamAcquisitionPo, SteamTables}
use wealthfolio_connect_self.Persistence.Steam.Imports.{each}
use wealthfolio_connect_self.Persistence.Steam.Evidence.{
  acquisition_columns, confidence_rank, evidence_fields, stronger_or_equal_acquisition, may_replace,
  po_of_acquisition, write_acquisition, save_acquisition, save_acquisitions,
}
use wealthfolio_connect_self.Persistence.Steam.Table.{assign_acquisition, IsSteamTable}

abbrev pub po_rank : {F : Type 0} → SteamAcquisitionPo F → ℕ
po_rank po = confidence_rank po.match_confidence

abbrev pub po_score : {F : Type 0} → SteamAcquisitionPo F → ℕ
po_score po = evidence_fields po.acquired_at po.cost_basis po.reference

-- The row is still there, with evidence that is not weaker.
abbrev pub IsUpgrade :
    {F : Type 0} → Option (SteamAcquisitionPo F) → Option (SteamAcquisitionPo F) → Type 0
IsUpgrade none after = Unit
IsUpgrade (some old) none = ⊥
IsUpgrade (some old) (some new) =
    NotWeaker (po_rank new) (po_score new) (po_rank old) (po_score old)

module _ {F : Type 0} where
  IsUpgrade-same : (row : Option (SteamAcquisitionPo F)) → IsUpgrade row row
  IsUpgrade-same none = tt
  IsUpgrade-same (some po) = inr (refl, omega arith)

  IsUpgrade-trans :
      (a b c : Option (SteamAcquisitionPo F)) → IsUpgrade a b → IsUpgrade b c → IsUpgrade a c
  IsUpgrade-trans none b c h k = tt
  IsUpgrade-trans (some a) none c h k = absurd h
  IsUpgrade-trans (some a) (some b) none h k = absurd k
  IsUpgrade-trans (some a) (some b) (some c) h k = ground (arith, h, k)

  -- A row that `may_replace` lets in is written whole: only its key is not among the columns.
  assign-replaced :
      (steam_id : String) (a : SteamAcquisitionRow F) (old : SteamAcquisitionPo F)
      → assign_acquisition acquisition_columns (po_of_acquisition steam_id a) old
        ≡ po_of_acquisition steam_id a
  unfolding assign_acquisition po_of_acquisition member
  assign-replaced steam_id a old = refl

  module _ {J D : Type 0} (db : SteamTables F J D) (table : IsSteamTable db) where
    -- What one write leaves in any row.
    pub write_acquisition-row :
        (steam_id : String) (a : SteamAcquisitionRow F) (d : D) (asset_id : String)
        → table.row steam_id asset_id (write_acquisition db steam_id a d).1 ≡ (
            if is_some (write_acquisition db steam_id a d).0
            then table.row steam_id asset_id d
            else if str_eq a.asset_id asset_id
            then some (po_of_acquisition steam_id a)
            else table.row steam_id asset_id d)
    unfolding po_of_acquisition
    write_acquisition-row steam_id a d asset_id =
        let written =
          table.create-row acquisition_columns (po_of_acquisition steam_id a) d steam_id asset_id in
        elim (Option-cases (table.row steam_id asset_id d)) [
          | inl missing ↦ ground (arith, written, missing, eq_iff steam_id steam_id)
          | inr (old, held) ↦
              ground
                (arith, written, held, eq_iff steam_id steam_id, assign-replaced steam_id a old)
        ]

    write_acquisition-IsUpgrade :
        (steam_id : String) (a : SteamAcquisitionRow F) (d : D) (asset_id : String)
        → IsUpgrade (table.row steam_id a.asset_id d) (some (po_of_acquisition steam_id a))
        → IsUpgrade
            (table.row steam_id asset_id d)
            (table.row steam_id asset_id (write_acquisition db steam_id a d).1)
    write_acquisition-IsUpgrade steam_id a d asset_id better =
        let same = IsUpgrade-same (table.row steam_id asset_id d) in
        rw (write_acquisition-row steam_id a d asset_id)
          (elim (Bool-cases (is_some (write_acquisition db steam_id a d).0)) [
            | inl refused ↦ rw refused same
            | inr fine ↦ elim (Bool-cases (str_eq a.asset_id asset_id)) [
              | inr other ↦ rw (fine, other) same
              | inl equal ↦
                  let ids : a.asset_id ≡ asset_id =
                    ground (arith, equal, eq_iff a.asset_id asset_id) in
                  rw (fine, equal) (rw (ap (λ id. table.row steam_id id d) ids) at better)
            ]
          ])

    may_replace-IsUpgrade :
        (steam_id : String) (a : SteamAcquisitionRow F) (existing : SteamAcquisitionPo F)
        → may_replace existing a ≡ true
        → IsUpgrade (some existing) (some (po_of_acquisition steam_id a))
    unfolding may_replace stronger_or_equal_acquisition po_of_acquisition
    may_replace-IsUpgrade steam_id a existing h = ground (arith, h)

    save_acquisition-IsUpgrade :
        (steam_id : String) (a : SteamAcquisitionRow F) (d : D) (asset_id : String)
        → IsUpgrade
            (table.row steam_id asset_id d)
            (table.row steam_id asset_id (save_acquisition db steam_id a d).1)
    unfolding save_acquisition
    save_acquisition-IsUpgrade steam_id a d asset_id =
        let same = IsUpgrade-same (table.row steam_id asset_id d) in
        elim (Fetched-cases (db.first_acquisition steam_id a.asset_id d)) [
          | inr (e, missed) ↦ rw missed same
          | inl (none, fetched) ↦
              let missing = table.first-row steam_id a.asset_id d none fetched in
              rw fetched (write_acquisition-IsUpgrade steam_id a d asset_id (rw (sym missing) tt))
          | inl (some existing, fetched) ↦
              let held = table.first-row steam_id a.asset_id d (some existing) fetched in
              elim (Bool-cases (may_replace existing a)) [
                | inr kept ↦ rw (fetched, kept) same
                | inl replaced ↦
                    rw (fetched, replaced)
                      (write_acquisition-IsUpgrade steam_id a d asset_id
                        (rw (sym held) (may_replace-IsUpgrade steam_id a existing replaced)))
              ]
        ]

    next-IsUpgrade :
        (steam_id asset_id : String) (d : D) (done_so_far : Option Error × D) (m : Action D)
        → IsUpgrade (table.row steam_id asset_id d) (table.row steam_id asset_id done_so_far.1)
        → ((e : D)
            → IsUpgrade (table.row steam_id asset_id e) (table.row steam_id asset_id (m e).1))
        → IsUpgrade
            (table.row steam_id asset_id d)
            (table.row steam_id asset_id (next done_so_far m).1)
    next-IsUpgrade steam_id asset_id d (some err, e) m h k = h
    next-IsUpgrade steam_id asset_id d (none, e) m h k =
        IsUpgrade-trans (table.row steam_id asset_id d) (table.row steam_id asset_id e)
          (table.row steam_id asset_id (m e).1) h (k e)

    save_each-IsUpgrade :
        (steam_id : String) (rows : List (SteamAcquisitionRow F)) (d : D) (asset_id : String)
        → IsUpgrade
            (table.row steam_id asset_id d)
            (table.row steam_id asset_id (each (save_acquisition db steam_id) rows d).1)
    save_each-IsUpgrade steam_id [] d asset_id = IsUpgrade-same (table.row steam_id asset_id d)
    save_each-IsUpgrade steam_id (a ∷ rows) d asset_id =
        next-IsUpgrade steam_id asset_id d (save_acquisition db steam_id a d)
          (each (save_acquisition db steam_id) rows)
          (save_acquisition-IsUpgrade steam_id a d asset_id)
          (λ e. save_each-IsUpgrade steam_id rows e asset_id)

    -- `SaveAcquisitions` never removes or weakens the evidence of any asset, whether it succeeds
    -- or fails: the rank of the confidence never falls, and at the same rank no fewer fields of
    -- evidence are there.
    pub save_acquisitions-IsUpgrade :
        (steam_id : String) (rows : List (SteamAcquisitionRow F)) (d : D) (asset_id : String)
        → IsUpgrade
            (table.row steam_id asset_id d)
            (table.row steam_id asset_id (save_acquisitions db steam_id rows d).1)
    unfolding save_acquisitions
    save_acquisitions-IsUpgrade steam_id rows d asset_id =
        elim (table.commits (each (save_acquisition db steam_id) rows) d) [
          | inl (same, _) ↦ rw same (save_each-IsUpgrade steam_id rows d asset_id)
          | inr (e, rolled_back) ↦ rw rolled_back (IsUpgrade-same (table.row steam_id asset_id d))
        ]
