-- ===== src/Steam/Match/Gap.antt =====
-- The time between the two sides of a pair of `matchMarketPair`,
-- internal/infrastructure/clients/steam/reconcile.go.

use wealthfolio_connect_self.Prelude.{
  ℕ, ◌+◌, ◌*◌, ◌≤◌, String, Bool, false, some, List, ◌≡◌, ◌⊎◌, arith,
}
use wealthfolio_connect_self.Prelude.Int.{negsuc, ltb_ℤ}
use wealthfolio_connect_self.Prelude.Map.{Map}
use wealthfolio_connect_self.Prelude.Time.{hour, sub_time, max_duration}
use wealthfolio_connect_self.Steam.Model.{HistoryEvent, InventoryItem, MarketTransaction}
use wealthfolio_connect_self.Steam.Match.{abs_duration, market_window, gap_of, match_market_pair}
use wealthfolio_connect_self.Steam.Match.Pairing.{match_market_pair_sound}

-- What the test of the window means for the times.
window-times :
    (a b : ℕ)
    → ltb_ℤ market_window (abs_duration (sub_time a b)) ≡ false
    → ((a ≤ b + 24 * hour) × (b ≤ a + 24 * hour)) ⊎ (a + (max_duration + 1) ≤ b)
unfolding abs_duration
window-times a b h = ground (arith, h)

-- A time before 292 years ago passes the test, as the opposite of the smallest duration is itself.
gap-undated :
    (a b : ℕ) → a + (max_duration + 1) ≤ b → abs_duration (sub_time a b) ≡ negsuc max_duration
unfolding abs_duration
gap-undated a b h = ground (arith, h)

module _ {F : Type 0} (text_less : String → String → Bool) (events : List HistoryEvent)
    (market : Map (MarketTransaction F)) (consumed consumed_tx : List String)
    (it : InventoryItem) where
  -- The event and the purchase of a pair that `matchMarketPair` finds are at most a day apart, or
  -- the event is older than the purchase by 2^63 nanoseconds at least, as an event whose date was
  -- not parsed is.
  pub match_market_pair-gap :
      (ev : HistoryEvent) (tx : MarketTransaction F)
      → match_market_pair text_less events market consumed consumed_tx it ≡ some (ev, tx)
      → ((ev.timestamp ≤ tx.timestamp + 24 * hour) × (tx.timestamp ≤ ev.timestamp + 24 * hour))
        ⊎ (ev.timestamp + (max_duration + 1) ≤ tx.timestamp)
  unfolding gap_of
  match_market_pair-gap ev tx h =
      let (pair, _) =
        match_market_pair_sound text_less events market consumed consumed_tx it ev tx h in
      window-times ev.timestamp tx.timestamp pair.offered.within
