-- ===== src/Steam/Walk/Market.antt =====
-- `fetchMarketHistory` of internal/infrastructure/clients/steam/market.go, and what `Fetch` of
-- reconcile.go makes of its results. `ask` is the request for a page, which may be answered
-- differently each time; what the parsers of a page read stands in the page.
use wealthfolio_connect_self.Prelude.{
  ℕ, ◌+◌, ◌*◌, String, Bool, true, false, not, ◌&&◌, Option, none, some, List, is_empty,
  if◌then◌else◌,
}
use wealthfolio_connect_self.Prelude.Int.{ℤ, pos, negsuc, pos_part, is_positive, ltb_ℤ}
use wealthfolio_connect_self.Domain.Error.{Error, foreign, wrapped, Fetched, ok, failed}
use wealthfolio_connect_self.Steam.Model.{MarketTransaction}
use wealthfolio_connect_self.Steam.Cursors.{
  CursorJson, ProvenanceCursor, ProvenanceOutcome, decode_market_resume, market_start,
}
use wealthfolio_connect_self.Steam.Walk.{Turn, stop, go, walk, Gathered, nothing_gathered, gather}

abbrev pub market_page_size : ℕ
market_page_size = 500

-- `structured` is what `parseMarketStructured` reads with the names of the page, and `from_html`
-- what `parseMarketHTML` does.
pub record MarketPage (F : Type 0) : Type 0 where
  pub success : Bool
  pub total_count : ℤ
  pub structured : List (MarketTransaction F)
  pub from_html : List (MarketTransaction F)

-- The variables of the loop.
pub record MarketWalk (F : Type 0) : Type 0 where
  pub gathered : Gathered (MarketTransaction F)
  pub total : ℤ
  pub next : ℤ

-- `(txs, complete, next, err)`
pub record MarketFetched (F : Type 0) : Type 0 where
  pub txs : List (MarketTransaction F)
  pub complete : Bool
  pub next : ℤ
  pub error : Option Error

-- `total >= 0 && start >= total`
abbrev pub is_covered : ℕ → ℤ → Bool
is_covered start total = not (ltb_ℤ total (pos 0)) && not (ltb_ℤ (pos start) total)

module _ {F : Type 0} where
  unfoldable pub market_rows : MarketPage F → List (MarketTransaction F)
  market_rows env = if is_empty env.structured then env.from_html else env.structured

  abbrev pub market_result : List (MarketTransaction F) → Bool → ℤ → Option Error → MarketFetched F
  market_result txs complete next error = record {
    txs = txs;
    complete = complete;
    next = next;
    error = error;
  }

  -- What a page with this total and these rows does.
  unfoldable pub market_page_read :
      ℕ → ℤ → List (MarketTransaction F) → MarketWalk F → Turn (MarketWalk F) (MarketFetched F)
  market_page_read start total rows s =
      let g = gather (λ tx. tx.external_id) rows s.gathered in
      if is_empty rows
      then (if not (ltb_ℤ (pos start) total)
          then stop (market_result s.gathered.all true (negsuc 0) none)
          else stop (market_result s.gathered.all false (pos start) none))
      else if is_covered (start + market_page_size) total
      then stop (market_result g.all true (negsuc 0) none)
      else go (record { gathered = g; total = total; next = pos (start + market_page_size) })

  unfoldable pub market_received :
      ℕ → MarketWalk F → Fetched (MarketPage F) → Turn (MarketWalk F) (MarketFetched F)
  market_received start s (failed e) = stop (market_result s.gathered.all false (negsuc 0) (some e))
  market_received start s (ok env) =
      if not env.success
      then stop (
          market_result s.gathered.all false (negsuc 0)
            (some (wrapped "steam market history" (foreign "success=false"))))
      else market_page_read start (if ltb_ℤ s.total (pos 0) then env.total_count else s.total)
          (market_rows env) s

  abbrev pub market_begin : MarketWalk F
  market_begin = record { gathered = nothing_gathered; total = negsuc 0; next = negsuc 0 }

  abbrev pub market_capped : MarketWalk F → MarketFetched F
  market_capped s = market_result s.gathered.all false s.next none

  -- `marketOutcome`; `encode_offset` is the JSON of a `marketResume`.
  unfoldable pub market_outcome : (ℤ → String) → ℕ → MarketFetched F → ProvenanceOutcome
  market_outcome encode_offset now r = record {
    complete = r.complete;
    newest = if r.complete then now else 0;
    resume = if is_positive r.next then encode_offset r.next else "";
  }

  -- `ask` has the number of the request and the offset.
  module _ (ask : ℕ → ℕ → Fetched (MarketPage F)) where
    unfoldable pub market_turn : ℕ → ℕ → MarketWalk F → Turn (MarketWalk F) (MarketFetched F)
    market_turn start_offset page s =
        let start = start_offset + page * market_page_size in
        if is_covered start s.total
        then stop (market_result s.gathered.all true (negsuc 0) none)
        else market_received start s (ask page start)

    unfoldable pub fetch_market_history : ℕ → ℤ → MarketFetched F
    fetch_market_history max_pages start_offset =
        walk (market_turn (pos_part start_offset)) market_capped max_pages 0 market_begin

    module _ (json : CursorJson) (encode_offset : ℤ → String) where
      -- The purchases of one `Fetch`, from what the last one stored.
      unfoldable pub market_run : ℕ → ℕ → ProvenanceCursor → ProvenanceOutcome
      market_run max_pages now pc = market_outcome encode_offset now (
          fetch_market_history max_pages (pos (market_start (decode_market_resume json pc.resume))))
