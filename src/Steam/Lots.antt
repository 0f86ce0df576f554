-- ===== src/Steam/Lots.antt =====
-- `buildLots` of internal/infrastructure/clients/steam/reconcile.go.
pub mod Members
pub mod Once
use Prim.Native.String.{◌++◌}
use mathlib.Core.List.{◌++◌ as ◌+++◌}
use wealthfolio_connect_self.Prelude.{
  ℕ, String, Bool, true, false, not, ◌&&◌, ◌||◌, Option, none, some, List, [], ◌∷◌, ltb, length,
  str_eq, if◌then◌else◌,
}
use wealthfolio_connect_self.Prelude.Int.{ℤ, pos, ◌+ℤ◌}
use wealthfolio_connect_self.Prelude.Map.{Map, lookup, insert}
use wealthfolio_connect_self.Prelude.Time.{decimal}
use wealthfolio_connect_self.Prelude.Sort.{sort_slice}
use wealthfolio_connect_self.Steam.Model.{
  Resolution, AcquisitionLot, match_exact, match_high, acquisition_unresolved,
}

module _ {F : Type 0} where
  -- The resolutions that the first loop does not skip.
  unfoldable pub is_pooled : Resolution F → Bool
  is_pooled r =
      not (str_eq r.match_confidence match_exact || str_eq r.match_confidence match_high)
      && not (str_eq r.asset.market_hash_name "")

  abbrev pub group_at : Option (List (Resolution F)) → List (Resolution F)
  group_at none = []
  group_at (some group) = group

  -- `byName`
  unfoldable pub groups_by_name :
      List (Resolution F) → Map (List (Resolution F)) → Map (List (Resolution F))
  groups_by_name [] by_name = by_name
  groups_by_name (r ∷ rs) by_name =
      let name = r.asset.market_hash_name in
      groups_by_name rs (
        if is_pooled r
        then insert name (group_at (lookup name by_name) +++ (r ∷ [])) by_name
        else by_name)

  unfoldable pub total_amount : ℤ → List (Resolution F) → ℤ
  total_amount qty [] = qty
  total_amount qty (r ∷ rs) = total_amount (qty +ℤ r.asset.amount) rs

  unfoldable pub lot_of : String → List (Resolution F) → AcquisitionLot F
  lot_of name group = record {
    id = "lot:" ++ name;
    steam_id = "";
    market_hash_name = name;
    quantity = total_amount (pos 0) group;
    acquired_at = 0;
    unit_cost = none;
    cost_currency = "";
    source = acquisition_unresolved;
    reference = decimal (pos (length group)) ++ " indistinguishable assets";
  }

  unfoldable pub names_of : Map (List (Resolution F)) → List String
  names_of [] = []
  names_of ((name, group) ∷ rest) = name ∷ names_of rest

  unfoldable pub lots_of : Map (List (Resolution F)) → List String → List (AcquisitionLot F)
  lots_of by_name [] = []
  lots_of by_name (name ∷ names) =
      let rest = lots_of by_name names in
      let group = group_at (lookup name by_name) in
      if ltb (length group) 2 then rest else lot_of name group ∷ rest

  -- `textLess` orders by bytes, as `sort.Strings` does.
  unfoldable pub build_lots :
      (String → String → Bool) → List (Resolution F) → List (AcquisitionLot F)
  build_lots text_less resolved =
      let by_name = groups_by_name resolved [] in
      lots_of by_name (sort_slice text_less (names_of by_name))
