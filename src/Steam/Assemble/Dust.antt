-- ===== src/Steam/Assemble/Dust.antt =====
-- The dust filter of `Fetch`, internal/infrastructure/clients/steam/reconcile.go.
use Prim.Native.String.{◌++◌}
use wealthfolio_connect_self.Prelude.{
  ℕ, String, true, Option, none, some, List, [], ◌∷◌, ◌≡◌, refl, arith, inl, inr, Bool-cases,
  str_eq, eq_iff,
}
use wealthfolio_connect_self.Prelude.Int.{ℤ}
use wealthfolio_connect_self.Prelude.Map.{Map}
use wealthfolio_connect_self.Prelude.Text.{Unicode}
use wealthfolio_connect_self.Domain.Brokerage.{Activity, Position}
use wealthfolio_connect_self.Steam.Model.{Resolution, PricedAsset, SteamFloats, match_unresolved}
use wealthfolio_connect_self.Steam.Valuation.{
  title_of, to_position, to_activity, to_domain_asset, pnl_of,
}
use wealthfolio_connect_self.Steam.Assemble.{
  Quotes, Run, Emitted, Assembled, add_emitted, price_in, kind_in, price_item, is_filtered, emit,
  assemble_items,
}

module _ {F S : Type 0} (unicode : Unicode) (floats : SteamFloats F) (quotes : Quotes F S)
    (min_value : F) (steam_id account_id : String) (now : ℕ) (group_qty : Map ℤ) where
  -- Each item is shown as a position with its title and amount, or retracted under its identifier; it
  -- is retracted only where the filter is on, and an asset without evidence has no activity.
  pub data IsSplit : List (Resolution F) → Assembled F → Type 0 where
    no_items : IsSplit [] (record { positions = []; activities = []; retractions = [] })
    item_shown :
        (r : Resolution F) (p : Position F) (act : Option (Activity F)) (rs : List (Resolution F))
        (rest : Assembled F)
        → p.symbol.symbol ≡ title_of r
        → p.units ≡ floats.of_int r.asset.amount
        → (r.match_confidence ≡ match_unresolved → act ≡ none)
        → IsSplit rs rest
        → IsSplit (r ∷ rs) (add_emitted (Emitted.shown p act) rest)
    item_retracted :
        (r : Resolution F) (rs : List (Resolution F)) (rest : Assembled F)
        → floats.less floats.zero min_value ≡ true
        → IsSplit rs rest
        → IsSplit (r ∷ rs) (add_emitted (Emitted.retracted ("steam:" ++ r.asset.asset_id)) rest)

  to_activity-unresolved :
      (r : Resolution F) (view : PricedAsset F)
      → r.match_confidence ≡ match_unresolved
      → to_activity floats r view account_id now ≡ none
  unfolding to_activity
  to_activity-unresolved r view h =
      let unknown : str_eq r.match_confidence match_unresolved ≡ true =
        ground (arith, h, eq_iff r.match_confidence match_unresolved) in
      rw unknown refl

  is_filtered-threshold :
      (r : Resolution F) (quote : Option (F × String))
      → is_filtered unicode floats min_value group_qty r quote ≡ true
      → floats.less floats.zero min_value ≡ true
  unfolding is_filtered
  is_filtered-threshold r none h = h
  is_filtered-threshold r (some (price, kind)) h = ground (arith, h)

  abbrev emitted : Resolution F → Option (F × String) → Emitted F
  emitted = emit unicode floats min_value steam_id account_id now group_qty

  emit-IsSplit :
      (r : Resolution F) (quote : Option (F × String)) (rs : List (Resolution F))
      (rest : Assembled F)
      → IsSplit rs rest
      → IsSplit (r ∷ rs) (add_emitted (emitted r quote) rest)
  unfolding emit to_position
  emit-IsSplit r quote rs rest split =
      let view = pnl_of floats (to_domain_asset steam_id r now) (price_in quote) (kind_in quote) in
      elim (Bool-cases (is_filtered unicode floats min_value group_qty r quote)) [
        | inl dropped ↦
            rw dropped (item_retracted r rs rest (is_filtered-threshold r quote dropped) split)
        | inr kept ↦ rw kept (
            item_shown r (to_position floats r view) (to_activity floats r view account_id now) rs
              rest refl refl (to_activity-unresolved r view) split)
      ]

  -- Every resolved item is either shown, with its title and its whole amount, or retracted, and
  -- only a threshold above zero retracts; an asset without evidence gets no activity.
  pub assemble_items-IsSplit :
      (rs : List (Resolution F)) (run : Run F S)
      → IsSplit rs
          (assemble_items unicode floats quotes min_value steam_id account_id now group_qty rs
            run).0
  unfolding assemble_items
  assemble_items-IsSplit [] run = no_items
  assemble_items-IsSplit (r ∷ rs) run =
      let (quote, later) = price_item unicode floats quotes r run in
      emit-IsSplit r quote rs
        (assemble_items unicode floats quotes min_value steam_id account_id now group_qty rs
          later).0
        (assemble_items-IsSplit rs later)
