-- ===== src/Steam/Match/Pairing.antt =====
-- `matchMarketPair` of internal/infrastructure/clients/steam/reconcile.go as a whole.

use mathlib.Core.List.{Mem, mem-cons_self, mem-cons_of_mem}
use wealthfolio_connect_self.Prelude.{
  ℕ, ◌+◌, ◌-◌, ◌*◌, ◌≤◌, ◌⊎◌, String, Bool, true, false, not, none, some, List, [], ◌∷◌, ◌≡◌, refl,
  sym, arith, inl, inr, Bool-cases,
}
use wealthfolio_connect_self.Prelude.Int.{pos, ltb_ℤ}
use wealthfolio_connect_self.Prelude.Map.{Map, values}
use wealthfolio_connect_self.Prelude.Time.{hour, sub_time, max_duration}
use wealthfolio_connect_self.Prelude.Search.{mem-keep, mem-keep_back}
use wealthfolio_connect_self.Prelude.Sort.{sort_slice, mem-sort_slice, mem-sort_slice_back}
use wealthfolio_connect_self.Steam.Model.{HistoryEvent, InventoryItem, MarketTransaction}
use wealthfolio_connect_self.Steam.Match.{
  contains, pairs_event, pairs_transaction, market_window, abs_duration, gap_of, unconsumed, Best,
  no_pair, nearer, scan_transactions, scan_events, match_market_pair, event_before,
  transaction_before,
}
use wealthfolio_connect_self.Steam.Match.Nearest.{IsOffered, scan_events-offered}

-- The time between two times.
abbrev pub distance : ℕ → ℕ → ℕ
distance a b = a - b + (b - a)

-- What the order of the gaps says of the times, inside the window.
closer :
    (a b c d : ℕ)
    → ltb_ℤ market_window (abs_duration (sub_time a b)) ≡ false
    → ltb_ℤ market_window (abs_duration (sub_time c d)) ≡ false
    → ltb_ℤ (abs_duration (sub_time a b)) (abs_duration (sub_time c d)) ≡ false
    → (distance c d ≤ distance a b) ⊎ (c + (max_duration + 1) ≤ d)
unfolding abs_duration
closer a b c d near near' h = ground (arith, near, near', h)

module _ {F : Type 0} where
  closer_times :
      (ev : HistoryEvent) (tx : MarketTransaction F) (e : HistoryEvent) (t : MarketTransaction F)
      → ltb_ℤ market_window (gap_of ev tx) ≡ false
      → ltb_ℤ market_window (gap_of e t) ≡ false
      → ltb_ℤ (gap_of ev tx) (gap_of e t) ≡ false
      → (distance e.timestamp t.timestamp ≤ distance ev.timestamp tx.timestamp)
        ⊎ (e.timestamp + (max_duration + 1) ≤ t.timestamp)
  unfolding gap_of
  closer_times ev tx e t = closer ev.timestamp tx.timestamp e.timestamp t.timestamp

  -- A pair of the two lists that the loops accept.
  pub record IsPairOf (it : InventoryItem) (consumed : List String) (events : List HistoryEvent)
      (txs : List (MarketTransaction F)) (ev : HistoryEvent) (tx : MarketTransaction F)
      : Type 0 where
    pub from_events : Mem ev events
    pub from_transactions : Mem tx txs
    pub offered : IsOffered it consumed ev tx

  module _ (it : InventoryItem) (consumed : List String) (events : List HistoryEvent)
      (txs : List (MarketTransaction F)) where
    -- What the loops know of `bestGap`, `bestEv` and `bestTx`.
    data IsTracked (best : Best F) : Type 0 where
      start : best.pair ≡ none → best.gap ≡ pos (25 * hour) → IsTracked best
      found :
          (ev : HistoryEvent) (tx : MarketTransaction F)
          → IsPairOf it consumed events txs ev tx
          → best.pair ≡ some (ev, tx)
          → best.gap ≡ gap_of ev tx
          → IsTracked best

    nearer-IsTracked :
        (ev : HistoryEvent) (tx : MarketTransaction F) (best : Best F)
        → Mem ev events
        → Mem tx txs
        → pairs_event consumed it ev ≡ true
        → IsTracked best
        → IsTracked (nearer it ev tx best)
    unfolding nearer
    nearer-IsTracked ev tx best m n h t = elim (Bool-cases (pairs_transaction it tx)) [
      | inr no_match ↦ rw no_match t
      | inl agrees ↦ elim (Bool-cases (ltb_ℤ market_window (gap_of ev tx))) [
        | inl far ↦ rw (agrees, far) t
        | inr near ↦ elim (Bool-cases (ltb_ℤ (gap_of ev tx) best.gap)) [
          | inr later ↦ rw (agrees, near, later) t
          | inl better ↦
              rw (agrees, near, better)
                (found ev tx
                  (record {
                    from_events = m;
                    from_transactions = n;
                    offered = record { event = h; transaction = agrees; within = near };
                  })
                  refl refl)
        ]
      ]
    ]

    scan_transactions-IsTracked :
        (ev : HistoryEvent) (rest : List (MarketTransaction F)) (best : Best F)
        → Mem ev events
        → ((tx : MarketTransaction F) → Mem tx rest → Mem tx txs)
        → pairs_event consumed it ev ≡ true
        → IsTracked best
        → IsTracked (scan_transactions it ev rest best)
    unfolding scan_transactions
    scan_transactions-IsTracked ev [] best m n h t = t
    scan_transactions-IsTracked ev (tx ∷ rest) best m n h t =
        scan_transactions-IsTracked ev rest (nearer it ev tx best) m
          (λ other inside. n other (mem-cons_of_mem tx inside)) h
          (nearer-IsTracked ev tx best m (n tx mem-cons_self) h t)

    scan_events-IsTracked :
        (rest : List HistoryEvent) (best : Best F)
        → ((ev : HistoryEvent) → Mem ev rest → Mem ev events)
        → IsTracked best
        → IsTracked (scan_events consumed it txs rest best)
    unfolding scan_events
    scan_events-IsTracked [] best m t = t
    scan_events-IsTracked (ev ∷ rest) best m t =
        let later =
          λ (other : HistoryEvent) (inside : Mem other rest). m other (mem-cons_of_mem ev inside) in
        elim (Bool-cases (pairs_event consumed it ev)) [
          | inr skipped ↦ rw skipped (scan_events-IsTracked rest best later t)
          | inl used ↦ rw used (
              scan_events-IsTracked rest (scan_transactions it ev txs best) later (
                scan_transactions-IsTracked ev txs best (m ev mem-cons_self) (λ tx inside. inside)
                  used t))
        ]

  mem-unconsumed :
      (consumed_tx : List String) (txs : List (MarketTransaction F)) (tx : MarketTransaction F)
      → Mem tx (unconsumed consumed_tx txs)
      → Mem tx txs × (contains tx.external_id consumed_tx ≡ false)
  unfolding unconsumed
  mem-unconsumed consumed_tx txs tx m =
      let (inside, free) = mem-keep (λ t. not (contains t.external_id consumed_tx)) txs tx m in
      (inside, ground (arith, free))

  mem-unconsumed_back :
      (consumed_tx : List String) (txs : List (MarketTransaction F)) (tx : MarketTransaction F)
      → Mem tx txs
      → contains tx.external_id consumed_tx ≡ false
      → Mem tx (unconsumed consumed_tx txs)
  unfolding unconsumed
  mem-unconsumed_back consumed_tx txs tx m free =
      mem-keep_back (λ t. not (contains t.external_id consumed_tx)) txs tx m (rw free refl)

  module _ (text_less : String → String → Bool) (events : List HistoryEvent)
      (market : Map (MarketTransaction F)) (consumed consumed_tx : List String)
      (it : InventoryItem) where
    abbrev ordered_events : List HistoryEvent
    ordered_events = sort_slice (event_before text_less) events

    abbrev ordered_tx : List (MarketTransaction F)
    ordered_tx = sort_slice (transaction_before text_less) (unconsumed consumed_tx (values market))

    abbrev best : Best F
    best = scan_events consumed it ordered_tx ordered_events no_pair

    best-IsTracked : IsTracked it consumed ordered_events ordered_tx best
    best-IsTracked =
        scan_events-IsTracked it consumed ordered_events ordered_tx ordered_events no_pair
          (λ ev inside. inside) (start refl refl)

    -- The pair that is found is one of the account's own, free and acceptable.
    pub match_market_pair_sound :
        (ev : HistoryEvent) (tx : MarketTransaction F)
        → match_market_pair text_less events market consumed consumed_tx it ≡ some (ev, tx)
        → IsPairOf it consumed events (values market) ev tx
          × (contains tx.external_id consumed_tx ≡ false)
    unfolding match_market_pair
    match_market_pair_sound ev tx h = elim best-IsTracked [
      | start nothing _ ↦ cc
      | found e t pair at _ ↦
          let same_ev : e ≡ ev = cc in
          let same_tx : t ≡ tx = cc in
          let (inside, free) = mem-unconsumed consumed_tx (values market) t (
            mem-sort_slice (transaction_before text_less) t (unconsumed consumed_tx (values market))
              pair.from_transactions) in
          rw (sym same_ev, sym same_tx)
            (
              record {
                from_events = mem-sort_slice (event_before text_less) e events pair.from_events;
                from_transactions = inside;
                offered = pair.offered;
              },
              free,
            )
    ]

    -- Where some event and some purchase that are not consumed form an acceptable pair,
    -- `matchMarketPair` finds a pair. The found one is not further apart in time, or its event is
    -- older than its purchase by 2^63 nanoseconds at least, as an event whose date was not parsed
    -- is.
    pub match_market_pair-nearest :
        (ev : HistoryEvent) (tx : MarketTransaction F)
        → IsPairOf it consumed events (values market) ev tx
        → contains tx.external_id consumed_tx ≡ false
        → (e : HistoryEvent) × (t : MarketTransaction F) × (match_market_pair text_less events
              market consumed consumed_tx it
            ≡ some (e, t))
          × ((distance e.timestamp t.timestamp ≤ distance ev.timestamp tx.timestamp)
              ⊎ (e.timestamp + (max_duration + 1) ≤ t.timestamp))
    unfolding match_market_pair
    match_market_pair-nearest ev tx pair free =
        let inside =
          mem-unconsumed_back consumed_tx (values market) tx pair.from_transactions free in
        let bound =
          scan_events-offered it consumed ordered_tx ev tx ordered_events no_pair
            (mem-sort_slice_back (event_before text_less) ev events pair.from_events)
            (mem-sort_slice_back (transaction_before text_less) tx
              (unconsumed consumed_tx (values market)) inside)
            pair.offered in
        elim best-IsTracked [
          | start _ at ↦
              let late : ltb_ℤ (gap_of ev tx) (pos (25 * hour)) ≡ false = rw at at bound in
              ground (arith, pair.offered.within, late)
          | found e t chosen at gap ↦ (
            e,
            t,
            at,
            closer_times ev tx e t pair.offered.within chosen.offered.within (rw gap at bound),
          )
        ]
