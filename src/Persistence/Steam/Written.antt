-- ===== src/Persistence/Steam/Written.antt =====
-- `SaveAcquisitions` of internal/infrastructure/persistence/steam_model.go: the rows after a save that
-- succeeds.
use wealthfolio_connect_self.Prelude.{
  String, true, false, Option, none, some, List, [], ◌∷◌, ◌≡◌, refl, sym, ◌∙◌, inl, inr, arith,
  eq_iff, str_eq, if◌then◌else◌, All,
}
use wealthfolio_connect_self.Domain.Error.{Error, Action, Fetched-cases, next}
use wealthfolio_connect_self.Steam.Model.{SteamAcquisitionRow}
use wealthfolio_connect_self.Steam.Match.{contains}
use wealthfolio_connect_self.Steam.Resolve.Distinct.{IsDistinct}
use wealthfolio_connect_self.Persistence.Steam.{SteamAcquisitionPo, SteamTables}
use wealthfolio_connect_self.Persistence.Steam.Imports.{each}
use wealthfolio_connect_self.Persistence.Steam.Evidence.{
  may_replace, po_of_acquisition, write_acquisition, save_acquisition,
}
use wealthfolio_connect_self.Persistence.Steam.Table.{IsSteamTable}
use wealthfolio_connect_self.Persistence.Steam.Upgrade.{write_acquisition-row}

pub next-none :
    {D : Type 0} (p : Option Error × D) (m : Action D)
    → (next p m).0 ≡ none
    → (p.0 ≡ none) × (next p m ≡ m p.1)
next-none (none, d) m h = (refl, refl)
next-none (some e, d) m h = cc

module _ {F : Type 0} where
  -- A row may be written, whatever is stored.
  abbrev pub CanReplace : Option (SteamAcquisitionPo F) → SteamAcquisitionRow F → Type 0
  CanReplace none a = Unit
  CanReplace (some existing) a = may_replace existing a ≡ true

  module _ {J D : Type 0} (db : SteamTables F J D) (table : IsSteamTable db)
      (steam_id : String) where
    write_done :
        (a : SteamAcquisitionRow F) (d : D) (id : String)
        → (write_acquisition db steam_id a d).0 ≡ none
        → table.row steam_id id (write_acquisition db steam_id a d).1 ≡ (
            if str_eq a.asset_id id
            then some (po_of_acquisition steam_id a)
            else table.row steam_id id d)
    write_done a d id fine = write_acquisition-row db table steam_id a d id ∙ rw fine refl

    -- What the save of one row that may be written leaves in any row.
    save_acquisition-row :
        (a : SteamAcquisitionRow F) (d : D) (id : String)
        → (save_acquisition db steam_id a d).0 ≡ none
        → CanReplace (table.row steam_id a.asset_id d) a
        → table.row steam_id id (save_acquisition db steam_id a d).1 ≡ (
            if str_eq a.asset_id id
            then some (po_of_acquisition steam_id a)
            else table.row steam_id id d)
    unfolding save_acquisition
    save_acquisition-row a d id fine free =
        elim (Fetched-cases (db.first_acquisition steam_id a.asset_id d)) [
          | inr (e, missed) ↦ ground (arith, fine, missed)
          | inl (none, fetched) ↦ rw fetched (write_done a d id (rw fetched at fine))
          | inl (some existing, fetched) ↦
              let held = table.first-row steam_id a.asset_id d (some existing) fetched in
              let allowed : may_replace existing a ≡ true = rw (sym held) at free in
              rw (fetched, allowed) (write_done a d id (rw (fetched, allowed) at fine))
        ]

    unfoldable pub asset_ids : List (SteamAcquisitionRow F) → List String
    asset_ids [] = []
    asset_ids (a ∷ rows) = a.asset_id ∷ asset_ids rows

    -- The save of a row leaves those of other assets as free as they were.
    CanReplace-kept :
        (a : SteamAcquisitionRow F) (rows : List (SteamAcquisitionRow F)) (d : D)
        → (save_acquisition db steam_id a d).0 ≡ none
        → CanReplace (table.row steam_id a.asset_id d) a
        → contains a.asset_id (asset_ids rows) ≡ false
        → All (λ b. CanReplace (table.row steam_id b.asset_id d) b) rows
        → All
            (λ b. CanReplace (table.row steam_id b.asset_id (save_acquisition db steam_id a d).1) b)
            rows
    unfolding contains asset_ids
    CanReplace-kept a [] d fine free apart h = tt
    CanReplace-kept a (b ∷ rows) d fine free apart h =
        let other : str_eq a.asset_id b.asset_id ≡ false =
          ground (arith, apart, eq_iff b.asset_id a.asset_id, eq_iff a.asset_id b.asset_id) in
        let same : table.row steam_id b.asset_id (save_acquisition db steam_id a d).1
            ≡ table.row steam_id b.asset_id d =
          save_acquisition-row a d b.asset_id fine free ∙ rw other refl in
        (rw same h.0, CanReplace-kept a rows d fine free (ground (arith, apart)) h.1)

    save_each-other :
        (rows : List (SteamAcquisitionRow F)) (d : D) (id : String)
        → (each (save_acquisition db steam_id) rows d).0 ≡ none
        → All (λ a. CanReplace (table.row steam_id a.asset_id d) a) rows
        → IsDistinct (asset_ids rows)
        → contains id (asset_ids rows) ≡ false
        → table.row steam_id id (each (save_acquisition db steam_id) rows d).1
          ≡ table.row steam_id id d
    unfolding contains asset_ids
    save_each-other [] d id fine free distinct apart = refl
    save_each-other (a ∷ rows) d id fine free distinct apart =
        let (saved, same) =
          next-none (save_acquisition db steam_id a d) (each (save_acquisition db steam_id) rows)
            fine in
        let after = (save_acquisition db steam_id a d).1 in
        let other : str_eq a.asset_id id ≡ false = ground (arith, apart) in
        rw same (
          save_each-other rows after id (rw same at fine)
            (CanReplace-kept a rows d saved free.0 distinct.0 free.1) distinct.1
            (ground (arith, apart))
          ∙ save_acquisition-row a d id saved free.0
          ∙ rw other refl)

    -- Each of the rows is what the table holds for its asset.
    unfoldable pub AllStored : List (SteamAcquisitionRow F) → D → Type 0
    AllStored [] d = Unit
    AllStored (a ∷ rows) d =
        (table.row steam_id a.asset_id d ≡ some (po_of_acquisition steam_id a)) × AllStored rows d

    AllStored-nil : (d : D) → AllStored [] d
    unfolding AllStored
    AllStored-nil d = tt

    AllStored-cons :
        (a : SteamAcquisitionRow F) (rows : List (SteamAcquisitionRow F)) (d : D)
        → table.row steam_id a.asset_id d ≡ some (po_of_acquisition steam_id a)
        → AllStored rows d
        → AllStored (a ∷ rows) d
    unfolding AllStored
    AllStored-cons a rows d h k = (h, k)

    pub save_each-AllStored :
        (rows : List (SteamAcquisitionRow F)) (d : D)
        → (each (save_acquisition db steam_id) rows d).0 ≡ none
        → All (λ a. CanReplace (table.row steam_id a.asset_id d) a) rows
        → IsDistinct (asset_ids rows)
        → AllStored rows (each (save_acquisition db steam_id) rows d).1
    unfolding asset_ids
    save_each-AllStored [] d fine free distinct = AllStored-nil d
    save_each-AllStored (a ∷ rows) d fine free distinct =
        let (saved, same) =
          next-none (save_acquisition db steam_id a d) (each (save_acquisition db steam_id) rows)
            fine in
        let after = (save_acquisition db steam_id a d).1 in
        let kept = CanReplace-kept a rows d saved free.0 distinct.0 free.1 in
        let self : str_eq a.asset_id a.asset_id ≡ true =
          ground (arith, eq_iff a.asset_id a.asset_id) in
        let own =
          save_each-other rows after a.asset_id (rw same at fine) kept distinct.1 distinct.0
          ∙ save_acquisition-row a d a.asset_id saved free.0
          ∙ rw self refl in
        rw same (
          AllStored-cons a rows (each (save_acquisition db steam_id) rows after).1 own
            (save_each-AllStored rows after (rw same at fine) kept distinct.1))
