-- ===== src/Clients/Cex/Legs.antt =====
-- The legs and the positions that `Translate` of
-- internal/infrastructure/clients/cexcommon/cexcommon.go makes.

use wealthfolio_connect_self.Prelude.{
  map, ℕ, String, ◌≡◌, refl, false, not, ◌&&◌, Option, none, some, List, [], ◌∷◌, if◌then◌else◌,
  arith, All, Option-cases, inl, inr,
}
use wealthfolio_connect_self.Prelude.Text.{Unicode}
use wealthfolio_connect_self.Domain.Brokerage.{Activity, Position}
use wealthfolio_connect_self.Clients.Cex.{Floats, CexBalance, Trade, normalize_asset, is_stablecoin}
use wealthfolio_connect_self.Clients.Cex.Trades.{
  resolve_pair, new_trade_activity, legs_of, activities_of,
}
use wealthfolio_connect_self.Clients.Cex.Translate.{unvalued_position, fold_balances, total_usd}

-- Two activities of one fill.
IsFill : {F : Type 0} → Activity F → Activity F → Type 0
IsFill source target =
    (source.type ≡ "SELL")
    × (target.type ≡ "BUY")
    × (source.amount ≡ target.amount)
    × (source.currency ≡ target.currency)
    × (source.source_group_id ≡ target.source_group_id)
    × (source.trade_date ≡ target.trade_date)
    × (source.account_id ≡ target.account_id)

-- The activities of a list come in pairs, each a fill.
pub IsPaired : {F : Type 0} → List (Activity F) → Type 0
IsPaired [] = Unit
IsPaired (a ∷ []) = ⊥
IsPaired (a ∷ b ∷ rest) = IsFill a b × IsPaired rest

module _ (unicode : Unicode) {F : Type 0} (floats : Floats F) where
  -- The identities of the trades whose pair is known, each twice.
  pub resolved_twice : List (Trade F) → List String
  resolved_twice [] = []
  resolved_twice (t ∷ ts) =
      let rest = resolved_twice ts in
      elim (resolve_pair unicode t.base_asset t.quote_asset t.symbol) [
        | none ↦ rest
        | some _ ↦ t.id ∷ t.id ∷ rest
      ]

  -- Every trade whose pair is known, and no other, becomes a fill of two activities in the trade's
  -- group, in the order of the trades: a SELL and then a BUY, with one amount, currency, account and
  -- time.
  pub activities_of-Paired :
      (price : Option (String → ℕ → F)) (account_id slug : String) (ts : List (Trade F))
      → IsPaired (activities_of unicode floats price account_id slug ts)
        × (map (λ a. a.source_group_id) (activities_of unicode floats price account_id slug ts)
            ≡ resolved_twice ts)
  unfolding activities_of legs_of new_trade_activity resolved_twice IsPaired IsFill
  activities_of-Paired price account_id slug [] = (tt, refl)
  activities_of-Paired price account_id slug (t ∷ ts) =
      let later = activities_of-Paired price account_id slug ts in
      elim (Option-cases (resolve_pair unicode t.base_asset t.quote_asset t.symbol)) [
        | inl unknown ↦ ground (arith, unknown, later)
        | inr ((base, quote), known) ↦ ground (arith, known, later)
      ]

  pub IsKept : Position F → Type 0
  IsKept p =
      (is_stablecoin unicode p.symbol.symbol ≡ false) × (floats.equal p.units floats.zero ≡ false)

  -- The balances that are cash: stablecoins, of which there are some.
  pub cash_balances : List (CexBalance F) → List (CexBalance F)
  cash_balances [] = []
  cash_balances (b ∷ bs) =
      let rest = cash_balances bs in
      if not (floats.equal b.quantity floats.zero)
        && is_stablecoin unicode (normalize_asset unicode b.asset)
      then b ∷ rest
      else rest

  -- The cash of a snapshot is what its stablecoins are worth, added in order, and no position is a
  -- stablecoin or an empty balance.
  pub fold_balances-Kept :
      (slug display_name : String) (cash : F) (bs : List (CexBalance F))
      → ((fold_balances unicode floats slug display_name cash bs).0
          ≡ total_usd unicode floats cash (cash_balances bs))
        × All IsKept (fold_balances unicode floats slug display_name cash bs).1
  unfolding fold_balances unvalued_position IsKept cash_balances total_usd
  fold_balances-Kept slug display_name cash [] = (refl, tt)
  fold_balances-Kept slug display_name cash (b ∷ bs) = ground (
    arith,
    fold_balances-Kept slug display_name cash bs,
    fold_balances-Kept slug display_name (floats.add cash b.usd_value) bs,
  )
