-- ===== src/Steam/Assemble/Shared.antt =====
-- `priceOf` within one run of `Fetch`, internal/infrastructure/clients/steam/reconcile.go: names that
-- share a key share a quote.
use wealthfolio_connect_self.Prelude.{
  ℕ, String, true, false, not, ◌&&◌, Option, none, some, List, [], ◌∷◌, ◌≡◌, refl, sym, ◌∙◌, arith,
  inl, inr, Bool-cases, Option-cases, str_eq, eq_iff, leb,
}
use wealthfolio_connect_self.Prelude.Int.{ℤ}
use wealthfolio_connect_self.Prelude.Map.{Map, lookup, lookup-insert}
use wealthfolio_connect_self.Prelude.Text.{Unicode}
use wealthfolio_connect_self.Steam.Model.{Resolution, SteamFloats}
use wealthfolio_connect_self.Steam.Names.{price_dedupe_key}
use wealthfolio_connect_self.Steam.Valuation.{pricable}
use wealthfolio_connect_self.Steam.Assemble.{
  PricedQuote, Quotes, Run, price_fail_breaker, price_known, price_of, price_item, is_filtered,
  assemble_items, live_or_stale,
}

module _ {F S : Type 0} (unicode : Unicode) (floats : SteamFloats F) (quotes : Quotes F S) where
  abbrev key_of : Resolution F → String
  key_of r = price_dedupe_key unicode r.asset.market_hash_name

  -- A name that has no quote is not one that has.
  apart :
      (key other : String) (priced : Map (PricedQuote F)) (q : PricedQuote F)
      → lookup key priced ≡ none
      → lookup other priced ≡ some q
      → str_eq key other ≡ false
  apart key other priced q fresh held = elim (Bool-cases (str_eq key other)) [
    | inr different ↦ different
    | inl equal ↦
        let same : key ≡ other = ground (arith, equal, eq_iff key other) in
        let both : lookup other priced ≡ none = rw same at fresh in ground (arith, both, held)
  ]

  price_known-kept :
      (name key other : String) (run : Run F S) (q : PricedQuote F)
      → lookup other run.priced ≡ some q
      → lookup other
          (price_known unicode floats quotes name key run (lookup key run.priced)).1.priced
        ≡ some q
  price_known-kept name key other run q held = elim (Option-cases (lookup key run.priced)) [
    | inr (q', known) ↦ rw known held
    | inl fresh ↦
        let new =
          (live_or_stale unicode floats quotes name (quotes.current_price name run.behind)).0 in
        let different = apart key other run.priced q fresh held in
        rw fresh (lookup-insert key other new run.priced ∙ rw different held)
  ]

  -- A quote of the run stays.
  price_item-kept :
      (r : Resolution F) (run : Run F S) (other : String) (q : PricedQuote F)
      → lookup other run.priced ≡ some q
      → lookup other (price_item unicode floats quotes r run).1.priced ≡ some q
  unfolding price_item price_of
  price_item-kept r run other q held =
      let tripped = leb price_fail_breaker (quotes.price_fails run.behind) in
      let run' : Run F S = record run { pricing = run.pricing && not tripped } in
      elim (Bool-cases (pricable r.asset)) [
        | inr unlisted ↦ rw unlisted held
        | inl listed ↦ elim (Bool-cases (run.pricing && not tripped)) [
          | inr stopped ↦ rw (listed, stopped) held
          | inl pricing ↦
              rw (listed, pricing)
                (price_known-kept r.asset.market_hash_name (key_of r) other
                  (record run { pricing = true }) q held)
        ]
      ]

  assemble_items-kept :
      (min_value : F) (steam_id account_id : String) (now : ℕ) (group_qty : Map ℤ)
      (rs : List (Resolution F)) (run : Run F S) (other : String) (q : PricedQuote F)
      → lookup other run.priced ≡ some q
      → lookup other
          (assemble_items unicode floats quotes min_value steam_id account_id now group_qty rs
            run).1.priced
        ≡ some q
  unfolding assemble_items
  assemble_items-kept min_value steam_id account_id now group_qty [] run other q held = held
  assemble_items-kept min_value steam_id account_id now group_qty (r ∷ rs) run other q held =
      assemble_items-kept min_value steam_id account_id now group_qty rs
        (price_item unicode floats quotes r run).1 other q (price_item-kept r run other q held)

  price_known-quote :
      (name key : String) (run : Run F S)
      → (q : PricedQuote F) × ((price_known unicode floats quotes name key run
            (lookup key run.priced)).0
          ≡ q.quote)
        × (lookup key
              (price_known unicode floats quotes name key run (lookup key run.priced)).1.priced
            ≡ some q)
  price_known-quote name key run = elim (Option-cases (lookup key run.priced)) [
    | inr (q, known) ↦ (q, rw known refl, rw known known)
    | inl fresh ↦
        let new =
          (live_or_stale unicode floats quotes name (quotes.current_price name run.behind)).0 in
        let self : str_eq key key ≡ true = ground (arith, eq_iff key key) in
        (new, rw fresh refl, rw fresh (lookup-insert key key new run.priced ∙ rw self refl))
  ]

  -- An item that is priced live leaves its quote under its key.
  price_item-quote :
      (r : Resolution F) (run : Run F S)
      → pricable r.asset ≡ true
      → (price_item unicode floats quotes r run).1.pricing ≡ true
      → (q : PricedQuote F) × ((price_item unicode floats quotes r run).0 ≡ q.quote)
        × (lookup (key_of r) (price_item unicode floats quotes r run).1.priced ≡ some q)
  unfolding price_item price_of
  price_item-quote r run listed live =
      let key = key_of r in
      let allowed = run.pricing && not (leb price_fail_breaker (quotes.price_fails run.behind)) in
      elim (Bool-cases allowed) [
        | inr stopped ↦ let off : false ≡ true = rw (listed, stopped) at live in cc
        | inl pricing ↦
            rw (listed, pricing)
              (price_known-quote r.asset.market_hash_name key (record run { pricing = true }))
      ]

  price_item-known :
      (r : Resolution F) (run : Run F S) (q : PricedQuote F)
      → pricable r.asset ≡ true
      → (price_item unicode floats quotes r run).1.pricing ≡ true
      → lookup (key_of r) run.priced ≡ some q
      → (price_item unicode floats quotes r run).0 ≡ q.quote
  unfolding price_item price_of
  price_item-known r run q listed live known =
      let allowed = run.pricing && not (leb price_fail_breaker (quotes.price_fails run.behind)) in
      elim (Bool-cases allowed) [
        | inr stopped ↦ let off : false ≡ true = rw (listed, stopped) at live in cc
        | inl pricing ↦ rw (listed, pricing, known) refl
      ]

  is_filtered-key :
      (min_value : F) (group_qty : Map ℤ) (r r' : Resolution F) (quote : Option (F × String))
      → price_dedupe_key unicode r.asset.market_hash_name
        ≡ price_dedupe_key unicode r'.asset.market_hash_name
      → is_filtered unicode floats min_value group_qty r' quote
        ≡ is_filtered unicode floats min_value group_qty r quote
  unfolding is_filtered
  is_filtered-key min_value group_qty r r' none same = refl
  is_filtered-key min_value group_qty r r' (some (price, kind)) same = rw same refl

  -- Two items of one run that have a market, and whose names share a key, get the same quote while
  -- the breaker has not tripped, whatever items stand between them, and the filter decides alike
  -- on both for the same quote.
  pub price_item-Shared :
      (min_value : F) (steam_id account_id : String) (now : ℕ) (group_qty : Map ℤ)
      (r r' : Resolution F) (between : List (Resolution F)) (run : Run F S)
      → pricable r.asset ≡ true
      → pricable r'.asset ≡ true
      → price_dedupe_key unicode r.asset.market_hash_name
        ≡ price_dedupe_key unicode r'.asset.market_hash_name
      → (price_item unicode floats quotes r run).1.pricing ≡ true
      → (price_item unicode floats quotes r'
          (assemble_items unicode floats quotes min_value steam_id account_id now group_qty between
            (price_item unicode floats quotes r run).1).1).1.pricing
        ≡ true
      → (price_item unicode floats quotes r'
            (assemble_items unicode floats quotes min_value steam_id account_id now group_qty
              between
              (price_item unicode floats quotes r run).1).1).0
          ≡ (price_item unicode floats quotes r run).0
        × ((quote : Option (F × String))
            → is_filtered unicode floats min_value group_qty r' quote
              ≡ is_filtered unicode floats min_value group_qty r quote)
  price_item-Shared min_value steam_id account_id now group_qty r r' between run listed listed' same
        live live' =
      let (q, first, left) = price_item-quote r run listed live in
      let run₁ = (price_item unicode floats quotes r run).1 in
      let later =
        (assemble_items unicode floats quotes min_value steam_id account_id now group_qty between
          run₁).1 in
      let kept =
        assemble_items-kept min_value steam_id account_id now group_qty between run₁ (key_of r) q
          left in
      (
        price_item-known r' later q listed' live' (rw (sym same) kept) ∙ sym first,
        λ quote. is_filtered-key min_value group_qty r r' quote same,
      )
