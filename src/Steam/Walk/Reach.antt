-- ===== src/Steam/Walk/Reach.antt =====
-- `fetchMarketHistory` of internal/infrastructure/clients/steam/market.go: how far a walk reaches when
-- Steam answers steadily.
use wealthfolio_connect_self.Prelude.{
  ℕ, zero, suc, ◌+◌, ◌*◌, ◌≤◌, ◌<◌, leb, List, Bool, true, false, ◌≡◌, refl, sym, ap, ◌∙◌, ◌⊎◌, inl,
  inr, arith, is_empty, Bool-cases,
}
use wealthfolio_connect_self.Prelude.Int.{pos, negsuc, ltb_ℤ}
use wealthfolio_connect_self.Domain.Error.{Fetched, ok}
use wealthfolio_connect_self.Steam.Model.{MarketTransaction}
use wealthfolio_connect_self.Steam.Walk.{Turn, stop, go, walk, Turn-cases}
use wealthfolio_connect_self.Steam.Walk.Market.{
  MarketPage, MarketWalk, MarketFetched, is_covered, market_rows, market_page_read, market_received,
  market_turn, market_begin, market_capped, fetch_market_history,
}

module _ {F : Type 0} (ask : ℕ → ℕ → Fetched (MarketPage F)) (count : ℕ) where
  -- Steam answers every request, with one total and with rows below it.
  pub record IsSteady : Type 0 where
    pub page : ℕ → ℕ → MarketPage F
    pub answers : (i start : ℕ) → ask i start ≡ ok (page i start)
    pub succeeds : (i start : ℕ) → (page i start).success ≡ true
    pub counts : (i start : ℕ) → (page i start).total_count ≡ pos count
    pub filled : (i start : ℕ) → start < count → is_empty (market_rows (page i start)) ≡ false

  abbrev is_done : Turn (MarketWalk F) (MarketFetched F) → Bool
  is_done (stop r) = r.complete
  is_done (go s) = false

  abbrev IsOn : ℕ → Turn (MarketWalk F) (MarketFetched F) → Type 0
  IsOn start (stop r) = ⊥
  IsOn start (go s) = (s.total ≡ pos count) × (s.next ≡ pos (start + 500))

  -- A turn ends with everything, or goes on one page further.
  record IsAhead (start : ℕ) (t : Turn (MarketWalk F) (MarketFetched F)) : Type 0 where
    done : count ≤ start + 500 → is_done t ≡ true
    more : start + 500 < count → IsOn start t

  market_page_read-IsAhead :
      (start : ℕ) (rows : List (MarketTransaction F)) (s : MarketWalk F)
      → (start < count → is_empty rows ≡ false)
      → IsAhead start (market_page_read start (pos count) rows s)
  unfolding market_page_read
  market_page_read-IsAhead start rows s filled = record {
    done = λ h. elim (Bool-cases (is_empty rows)) [
      | inl none_left ↦
          let past : ltb_ℤ (pos start) (pos count) ≡ false = ground (arith, filled, none_left) in
          rw none_left (rw past refl)
      | inr some_left ↦ rw some_left (
          let past : is_covered (start + 500) (pos count) ≡ true = ground (arith, h) in
          rw past refl)
    ];
    more = λ h.
        let some_left = filled (omega (arith, h)) in
        let ahead : is_covered (start + 500) (pos count) ≡ false = ground (arith, h) in
        rw some_left (rw ahead (refl, refl));
  }

  market_turn-IsAhead :
      (steady : IsSteady) (off page : ℕ) (s : MarketWalk F)
      → (s.total ≡ negsuc 0) ⊎ ((s.total ≡ pos count) × (off + page * 500 < count))
      → IsAhead (off + page * 500) (market_turn ask off page s)
  unfolding market_turn market_received market_rows market_page_read
  market_turn-IsAhead steady off page s read =
      let start = off + page * 500 in
      let env = steady.page page start in
      let next = market_page_read-IsAhead start (market_rows env) s (steady.filled page start) in
      elim read [
        | inl fresh ↦
            rw
              (
                steady.answers page start,
                fresh,
                steady.succeeds page start,
                steady.counts page start,
              )
              next
        | inr (known, below) ↦
            let open_still : is_covered start (pos count) ≡ false = ground (arith, below) in
            let natural : ltb_ℤ (pos count) (pos 0) ≡ false = ground arith in
            rw (steady.answers page start, known, open_still, steady.succeeds page start, natural)
              next
      ]

  -- A walk ends with everything, or stops at the cap behind its last page.
  pub record IsWalked (reach : ℕ) (r : MarketFetched F) : Type 0 where
    pub finished : count ≤ reach → r.complete ≡ true
    pub stopped : reach < count → (r.complete ≡ false) × (r.next ≡ pos reach)

  -- A page has been read and more are left, or none has.
  abbrev IsBefore : ℕ → ℕ → MarketWalk F → Type 0
  IsBefore start left s =
      ((s.total ≡ pos count) × (s.next ≡ pos start) × (start < count))
      ⊎ ((s.total ≡ negsuc 0) × (0 < left))

  in_walk : (off page left : ℕ) → off + page * 500 + 500 ≤ off + (page + suc left) * 500
  in_walk off page left = omega arith

  stop-IsWalked :
      (start reach : ℕ) (r : MarketFetched F)
      → IsAhead start (stop r)
      → start + 500 ≤ reach
      → IsWalked reach r
  stop-IsWalked start reach r turn within = record {
    finished = λ h. elim (Bool-cases (leb count (start + 500))) [
      | inl all ↦ turn.done (ground (arith, all))
      | inr some_left ↦ absurd (turn.more (ground (arith, some_left)))
    ];
    stopped = λ h. absurd (turn.more (omega (arith, h, within)));
  }

  walk-IsWalked :
      (steady : IsSteady) (off left page : ℕ) (s : MarketWalk F)
      → IsBefore (off + page * 500) left s
      → IsWalked (off + (page + left) * 500) (walk (market_turn ask off) market_capped left page s)
  unfolding walk
  walk-IsWalked steady off zero page s (inl (known, at, below)) = record {
    finished = λ h. absurd (omega (arith, h, below));
    stopped = λ h. (refl, at ∙ ap pos (omega arith));
  }
  walk-IsWalked steady off zero page s (inr (fresh, none_left)) = absurd (omega (arith, none_left))
  walk-IsWalked steady off (suc left) page s before =
      let start = off + page * 500 in
      let turn = market_turn-IsAhead steady off page s (elim before [
        | inl (known, at, below) ↦ inr (known, below)
        | inr (fresh, some_left) ↦ inl fresh
      ]) in
      elim (Turn-cases (market_turn ask off page s)) [
        | inl (r, is) ↦ rw is (stop-IsWalked start _ r (rw is at turn) (in_walk off page left))
        | inr (s', is) ↦
            let on : IsAhead start (go s') = rw is at turn in
            let below : start + 500 < count = ground (arith, on.done) in
            let (known, at) = on.more below in
            let same : off + (suc page + left) * 500 ≡ off + (page + suc left) * 500 =
              omega arith in
            rw (is, sym same)
              (walk-IsWalked steady off left (suc page) s'
                (inl (known, at ∙ ap pos (omega arith), omega (arith, below))))
      ]

  pub fetch-IsWalked :
      (steady : IsSteady) (c off : ℕ)
      → IsWalked (off + suc c * 500) (fetch_market_history ask (suc c) (pos off))
  unfolding fetch_market_history
  fetch-IsWalked steady c off =
      let walked = walk-IsWalked steady off (suc c) 0 market_begin (inr (refl, omega arith)) in
      let same : off + (0 + suc c) * 500 ≡ off + suc c * 500 = omega arith in rw same at walked
