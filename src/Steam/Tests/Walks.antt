-- ===== src/Steam/Tests/Walks.antt =====
-- Walks through small histories, with offsets written in unary.

use Prim.Native.String.count
use Prim.Native.String.{count, ◌∷◌ as ◌∷ᵀ◌}
use wealthfolio_connect_self.Prelude.{
  ℕ, zero, suc, ◌-◌, String, Bool, true, false, Option, none, some, inl, inr, if◌then◌else◌,
  Bool-cases, List, [], ◌∷◌, ◌≡◌, refl, ap, ◌∙◌, arith, eq_iff, str_eq,
}
use wealthfolio_connect_self.Prelude.Int.{ℤ, pos, negsuc}
use wealthfolio_connect_self.Prelude.Map.{Map}
use wealthfolio_connect_self.Prelude.Time.{from_unix}
use wealthfolio_connect_self.Domain.Error.{Fetched, ok}
use wealthfolio_connect_self.Steam.Model.{HistoryEvent}
use wealthfolio_connect_self.Steam.Match.{contains}
use wealthfolio_connect_self.Steam.Cursors.{CursorJson, no_cursor}
use wealthfolio_connect_self.Steam.Walk.{walk, gather}
use wealthfolio_connect_self.Steam.Walk.Market.{MarketPage, market_rows}
use wealthfolio_connect_self.Steam.Walk.Reach.{IsSteady}
use wealthfolio_connect_self.Steam.Walk.Backfill.{IsOffsetJson, is_backfilled, is_backfilled-enough}
use wealthfolio_connect_self.Steam.Walk.History.{
  HistoryCursor, HistoryPage, missing, given, usable_start, is_present, fetch_history,
  history_received, history_rows_read, history_follow, add_descs, is_known_territory, page_min_time,
  cursor_empty, cursor_key,
}
use wealthfolio_connect_self.Steam.Walk.Ends.{IsResult, fetch_history-IsResult}
use wealthfolio_connect_self.Steam.Walk.Trades.{
  RawTrade, TradeQuery, TradeHistoryPage, fetch_trades, trades_received, take_trades, trade_record,
  is_known_trades, trade_query, page_min_trade_time, trades_capped, trades_begin,
}
use wealthfolio_connect_self.Steam.Walk.Offsets.{IsTradesResult, fetch_trades-IsTradesResult}
use wealthfolio_connect_self.Steam.Tests.{events, purchase}

abbrev unary : ℕ → String
unary zero = "1"
unary (suc n) = "1" ∷ᵀ unary n

abbrev write_offset : ℤ → String
write_offset (pos n) = unary n
write_offset (negsuc n) = "-"

abbrev unary_json : CursorJson
unary_json = record {
  encode = λ pc. none;
  decode = λ position. (no_cursor, false);
  parse_rfc3339 = λ position. none;
  format_rfc3339 = λ t. "";
  decode_offset = λ position. some (pos (count position - 1));
}

count-unary : (n : ℕ) → count (unary n) ≡ suc n
count-unary zero = refl
count-unary (suc n) = count.cons "1" (unary n) ∙ ap suc (count-unary n)

unary_written : (n : ℕ) → str_eq (unary n) "" ≡ false
unary_written n = elim (Bool-cases (str_eq (unary n) "")) [
  | inr differs ↦ differs
  | inl same ↦
      let empty : unary n ≡ "" = ground (arith, same, eq_iff (unary n) "") in
      let none_left : count (unary n) ≡ 0 = ap (λ s. count s) empty in
      absurd (omega (arith, count-unary n, none_left))
]

-- 1200 purchases, of which every page shows one.
abbrev market_page : MarketPage ℕ
market_page = record {
  success = true;
  total_count = pos 1200;
  structured = [];
  from_html = purchase ∷ [];
}

abbrev steady_market : IsSteady (λ i start. ok market_page) 1200
unfolding market_rows
steady_market = record {
  page = λ i start. market_page;
  answers = λ i start. refl;
  succeeds = λ i start. refl;
  counts = λ i start. refl;
  filled = λ i start below. refl;
}

abbrev unary_offsets : IsOffsetJson (λ i start. ok market_page) 1200 unary_json write_offset 5
unary_offsets = record {
  written = unary_written;
  read_back = λ n.
      let length_known : count (unary n) - 1 ≡ n = omega (arith, count-unary n) in
      ap (λ k. some (pos k)) length_known;
}

-- A cap of two pages, and two runs: 1000 and then 500 to 1500.
is_backfilled-enough_example :
    is_backfilled (λ i start. ok market_page) 1200 unary_json write_offset 5 2 2 no_cursor ≡ true
is_backfilled-enough_example =
    is_backfilled-enough (λ i start. ok market_page) 1200 unary_json write_offset 5 steady_market
      unary_offsets 2 1 (omega arith) (omega arith)

-- The first page is read and its cursor followed; the second has no cursor.
abbrev second_page : HistoryCursor
second_page = record { time = "9"; time_frac = ""; s = "" }

abbrev history_page : Bool → HistoryPage
history_page last = record {
  success = true;
  descriptions = [];
  html = "";
  cursor = if last then missing else given second_page;
}

abbrev history_pages : ℕ → Option HistoryCursor → Fetched HistoryPage
history_pages i cursor = ok (history_page (is_present cursor))

abbrev two_rows : String → Map String → List HistoryEvent
two_rows html descs = events

history_walks :
    ((fetch_history two_rows history_pages 5 none 0).complete ≡ true)
    × ((fetch_history two_rows history_pages 1 none 0).resume ≡ some second_page)
unfolding fetch_history usable_start walk history_received history_rows_read history_follow gather
    contains add_descs is_known_territory page_min_time cursor_empty cursor_key
history_walks = (refl, refl)

fetch_history-IsResult_example :
    IsResult two_rows history_pages
      (usable_start none)
      0
      (fetch_history two_rows history_pages 5 none 0)
fetch_history-IsResult_example = fetch_history-IsResult two_rows history_pages 5 none 0

abbrev raw_trade : RawTrade
raw_trade = record {
  trade_id = "t1";
  steam_id_other = "s2";
  time_init = "7";
  status = "3";
  assets_given = [];
  assets_received = [];
}

abbrev trade_pages : ℕ → TradeQuery → Fetched TradeHistoryPage
trade_pages i q = ok (record { trades = raw_trade ∷ raw_trade ∷ []; more = true })

abbrev fixed_time : String → ℕ
fixed_time text = from_unix (pos 7)

-- The same page comes again, up to the cap.
trade_walk :
    (fetch_trades fixed_time trade_pages 3 none 0).resume
    ≡ some (record { after_time = from_unix (pos 7); after_id = "t1" })
unfolding fetch_trades walk trades_received take_trades trade_record is_known_trades trade_query
    page_min_trade_time trades_capped trades_begin contains
trade_walk = refl

fetch_trades-IsTradesResult_example :
    IsTradesResult fixed_time trade_pages none 0 (fetch_trades fixed_time trade_pages 3 none 0)
fetch_trades-IsTradesResult_example = fetch_trades-IsTradesResult fixed_time trade_pages none 0 3
