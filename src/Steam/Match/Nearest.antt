-- ===== src/Steam/Match/Nearest.antt =====
-- `matchMarketPair` of internal/infrastructure/clients/steam/reconcile.go: which pair it finds.
use mathlib.Core.Bool.{Bool-set}
use mathlib.Core.List.{Mem, not-mem-nil, eq-or-mem_of_mem-cons}
use mathlib.Core.Logic.Or
use wealthfolio_connect_self.Prelude.{String, true, false, List, [], ◌∷◌, ◌≡◌, arith, if◌then◌else◌}
use wealthfolio_connect_self.Prelude.Int.{ℤ, ltb_ℤ}
use wealthfolio_connect_self.Steam.Model.{HistoryEvent, InventoryItem, MarketTransaction}
use wealthfolio_connect_self.Steam.Match.{
  pairs_event, pairs_transaction, market_window, gap_of, Best, nearer, scan_transactions,
  scan_events,
}

pub ltb_ℤ-trans : (a b c : ℤ) → ltb_ℤ b a ≡ false → ltb_ℤ c b ≡ false → ltb_ℤ c a ≡ false
ltb_ℤ-trans a b c h k = ground arith

module _ {F : Type 0} where
  -- What the two loops accept as a pair.
  pub record IsOffered (it : InventoryItem) (consumed : List String) (ev : HistoryEvent)
      (tx : MarketTransaction F) : Type 0 where
    pub event : pairs_event consumed it ev ≡ true
    pub transaction : pairs_transaction it tx ≡ true
    pub within : ltb_ℤ market_window (gap_of ev tx) ≡ false

  nearer-gap :
      (it : InventoryItem) (ev : HistoryEvent) (tx : MarketTransaction F) (best : Best F)
      → ltb_ℤ best.gap (nearer it ev tx best).gap ≡ false
  unfolding nearer
  nearer-gap it ev tx best = ground arith

  nearer-offered :
      (it : InventoryItem) (ev : HistoryEvent) (tx : MarketTransaction F) (best : Best F)
      → pairs_transaction it tx ≡ true
      → ltb_ℤ market_window (gap_of ev tx) ≡ false
      → ltb_ℤ (gap_of ev tx) (nearer it ev tx best).gap ≡ false
  unfolding nearer
  nearer-offered it ev tx best h k = ground (arith, h, k)

  scan_transactions-gap :
      (it : InventoryItem) (ev : HistoryEvent) (txs : List (MarketTransaction F)) (best : Best F)
      → ltb_ℤ best.gap (scan_transactions it ev txs best).gap ≡ false
  unfolding scan_transactions
  scan_transactions-gap it ev [] best = ground arith
  scan_transactions-gap it ev (tx ∷ txs) best =
      ltb_ℤ-trans (scan_transactions it ev txs (nearer it ev tx best)).gap
        (nearer it ev tx best).gap best.gap (scan_transactions-gap it ev txs (nearer it ev tx best))
        (nearer-gap it ev tx best)

  scan_transactions-offered :
      (it : InventoryItem) (ev : HistoryEvent) (tx : MarketTransaction F)
      (txs : List (MarketTransaction F)) (best : Best F)
      → Mem tx txs
      → pairs_transaction it tx ≡ true
      → ltb_ℤ market_window (gap_of ev tx) ≡ false
      → ltb_ℤ (gap_of ev tx) (scan_transactions it ev txs best).gap ≡ false
  unfolding scan_transactions
  scan_transactions-offered it ev tx [] best m h k = absurd (not-mem-nil m)
  scan_transactions-offered it ev tx (t ∷ txs) best m h k =
      let later = scan_transactions it ev txs (nearer it ev t best) in
      Or.elim (Bool-set (ltb_ℤ (gap_of ev tx) later.gap) false) (eq-or-mem_of_mem-cons m)
        (λ same.
          ltb_ℤ-trans later.gap (nearer it ev t best).gap (gap_of ev tx)
            (scan_transactions-gap it ev txs (nearer it ev t best))
            (rw same (nearer-offered it ev t best (rw same at h) (rw same at k))))
        (λ inside. scan_transactions-offered it ev tx txs (nearer it ev t best) inside h k)

  module _ (it : InventoryItem) (consumed : List String) (txs : List (MarketTransaction F)) where
    -- The body of the outer loop.
    abbrev with_event : HistoryEvent → Best F → Best F
    with_event ev best =
        if pairs_event consumed it ev then scan_transactions it ev txs best else best

    scan_events-gap :
        (evs : List HistoryEvent) (best : Best F)
        → ltb_ℤ best.gap (scan_events consumed it txs evs best).gap ≡ false
    unfolding scan_events
    scan_events-gap [] best = ground arith
    scan_events-gap (ev ∷ evs) best = ground (
      arith,
      scan_events-gap evs best,
      scan_transactions-gap it ev txs best,
      ltb_ℤ-trans (scan_events consumed it txs evs (scan_transactions it ev txs best)).gap
          (scan_transactions it ev txs best).gap best.gap,
      scan_events-gap evs (scan_transactions it ev txs best),
    )

    with_event-offered :
        (ev : HistoryEvent) (tx : MarketTransaction F) (best : Best F)
        → Mem tx txs
        → IsOffered it consumed ev tx
        → ltb_ℤ (gap_of ev tx) (with_event ev best).gap ≡ false
    with_event-offered ev tx best n o =
        rw o.event (scan_transactions-offered it ev tx txs best n o.transaction o.within)

    pub scan_events-offered :
        (ev : HistoryEvent) (tx : MarketTransaction F) (evs : List HistoryEvent) (best : Best F)
        → Mem ev evs
        → Mem tx txs
        → IsOffered it consumed ev tx
        → ltb_ℤ (gap_of ev tx) (scan_events consumed it txs evs best).gap ≡ false
    unfolding scan_events
    scan_events-offered ev tx [] best m n o = absurd (not-mem-nil m)
    scan_events-offered ev tx (e ∷ evs) best m n o =
        let later = scan_events consumed it txs evs (with_event e best) in
        Or.elim (Bool-set (ltb_ℤ (gap_of ev tx) later.gap) false) (eq-or-mem_of_mem-cons m)
          (λ same.
            ltb_ℤ-trans later.gap (with_event e best).gap (gap_of ev tx)
              (scan_events-gap evs (with_event e best))
              (rw same (with_event-offered e tx best n (rw same at o))))
          (λ inside. scan_events-offered ev tx evs (with_event e best) inside n o)
