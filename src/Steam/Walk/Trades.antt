-- ===== src/Steam/Walk/Trades.antt =====
-- internal/infrastructure/clients/steam/trades.go. `ask` is the request for a page, which may be
-- answered differently each time; `parse_steam_time` is the function of that name in history.go,
-- which tries the layouts of Go's `time.Parse`.
use mathlib.Core.List.{◌++◌}
use wealthfolio_connect_self.Prelude.{
  ℕ, ◌+◌, String, Bool, true, false, not, ◌&&◌, ◌||◌, Option, none, some, List, [], ◌∷◌, str_eq,
  is_empty, if◌then◌else◌, map,
}
use wealthfolio_connect_self.Prelude.Int.{ℤ, pos, is_positive, eq_ℤ}
use wealthfolio_connect_self.Prelude.Time.{second, is_zero, after, unix, from_unix}
use wealthfolio_connect_self.Domain.Error.{Error, Fetched, ok, failed}
use wealthfolio_connect_self.Steam.Model.{TradeAsset, TradeRecord}
use wealthfolio_connect_self.Steam.Match.{contains}
use wealthfolio_connect_self.Steam.Cursors.{ProvenanceCursor, ProvenanceOutcome}
use wealthfolio_connect_self.Steam.Walk.{Turn, stop, go, walk}
use wealthfolio_connect_self.Steam.Walk.History.{earlier}

-- A field of any JSON type is the text of `strVal`, and the amount the integer of `intVal`.
pub record RawTradeAsset : Type 0 where
  pub asset_id : String
  pub class_id : String
  pub instance_id : String
  pub amount : ℤ
  pub new_asset_id : String
  pub new_context_id : String

pub record RawTrade : Type 0 where
  pub trade_id : String
  pub steam_id_other : String
  pub time_init : String
  pub status : String
  pub assets_given : List RawTradeAsset
  pub assets_received : List RawTradeAsset

pub record TradeHistoryPage : Type 0 where
  pub trades : List RawTrade
  pub more : Bool

unfoldable pub normalize_trade_asset : RawTradeAsset → TradeAsset
normalize_trade_asset a = record {
  asset_id = a.asset_id;
  class_id = a.class_id;
  instance_id = a.instance_id;
  quantity = if eq_ℤ a.amount (pos 0) then pos 1 else a.amount;
  new_asset_id = a.new_asset_id;
  new_context = a.new_context_id;
}

pub record TradeResume : Type 0 where
  pub after_time : ℕ
  pub after_id : String

-- `start_after_time` and `start_after_tradeid` of the query.
pub record TradeQuery : Type 0 where
  pub start_after_time : Option ℤ
  pub start_after_id : Option String

-- The variables of the loop; `after_time` is in Unix seconds.
pub record TradeWalk : Type 0 where
  pub all : List TradeRecord
  pub seen : List String
  pub after_time : ℤ
  pub after_id : String

-- The four results.
pub record TradesFetched : Type 0 where
  pub trades : List TradeRecord
  pub complete : Bool
  pub resume : Option TradeResume
  pub error : Option Error

abbrev pub trades_result :
    List TradeRecord → Bool → Option TradeResume → Option Error → TradesFetched
trades_result trades complete resume error = record {
  trades = trades;
  complete = complete;
  resume = resume;
  error = error;
}

unfoldable pub trade_query : TradeWalk → TradeQuery
trade_query w = record {
  start_after_time = if is_positive w.after_time then some w.after_time else none;
  start_after_id = if str_eq w.after_id "" then none else some w.after_id;
}

-- The body of the loop over a page's trades, by whether the trade is skipped.
abbrev pub take_new : Bool → TradeRecord → TradeWalk → TradeWalk
take_new true rec w = w
take_new false rec w = record {
  all = w.all ++ (rec ∷ []);
  seen = rec.trade_id ∷ w.seen;
  after_time = if is_positive (unix rec.timestamp) then unix rec.timestamp else w.after_time;
  after_id = rec.trade_id;
}

-- Where the page cap leaves the walk.
unfoldable pub trades_capped : TradeWalk → TradesFetched
trades_capped w =
    if str_eq w.after_id "" && eq_ℤ w.after_time (pos 0)
    then trades_result w.all false none none
    else trades_result w.all false
        (some (record { after_time = from_unix w.after_time; after_id = w.after_id })) none

unfoldable pub trades_begin : Option TradeResume → TradeWalk
trades_begin none = record { all = []; seen = []; after_time = pos 0; after_id = "" }
trades_begin (some start) = record {
  all = [];
  seen = [];
  after_time = unix start.after_time;
  after_id = start.after_id;
}

abbrev pub is_resumed : Option TradeResume → Bool
is_resumed none = false
is_resumed (some start) = true

module _ (parse_steam_time : String → ℕ) where
  unfoldable pub trade_record : RawTrade → TradeRecord
  trade_record t = record {
    trade_id = t.trade_id;
    timestamp = parse_steam_time t.time_init;
    other_steam_id = t.steam_id_other;
    status = t.status;
    given = map normalize_trade_asset t.assets_given;
    received = map normalize_trade_asset t.assets_received;
  }

  unfoldable pub take_trades : List RawTrade → TradeWalk → TradeWalk
  take_trades [] w = w
  take_trades (t ∷ trades) w =
      take_trades trades
        (take_new (str_eq t.trade_id "" || contains t.trade_id w.seen) (trade_record t) w)

  unfoldable pub page_min_trade_time : ℕ → List RawTrade → ℕ
  page_min_trade_time earliest [] = earliest
  page_min_trade_time earliest (t ∷ trades) =
      page_min_trade_time (earlier earliest (parse_steam_time t.time_init)) trades

  module _ (resume : Bool) (stop_before : ℕ) where
    unfoldable pub is_known_trades : List RawTrade → Bool
    is_known_trades trades =
        let earliest = page_min_trade_time 0 trades in
        not resume
        && not (is_zero stop_before)
        && not (is_zero earliest)
        && not (after earliest (stop_before + second))

    unfoldable pub trades_received :
        TradeWalk → Fetched TradeHistoryPage → Turn TradeWalk TradesFetched
    trades_received w (failed e) = stop (trades_result w.all false none (some e))
    trades_received w (ok env) =
        let next = take_trades env.trades w in
        if is_empty env.trades
        then stop (trades_result w.all true none none)
        else if is_known_trades env.trades
        then stop (trades_result next.all true none none)
        else if not env.more
        then stop (trades_result next.all true none none)
        else go next

    abbrev pub trades_turn :
        (ℕ → TradeQuery → Fetched TradeHistoryPage) → ℕ → TradeWalk → Turn TradeWalk TradesFetched
    trades_turn ask page w = trades_received w (ask page (trade_query w))

  unfoldable pub fetch_trades :
      (ℕ → TradeQuery → Fetched TradeHistoryPage) → ℕ → Option TradeResume → ℕ → TradesFetched
  fetch_trades ask max_pages start stop_before =
      walk (trades_turn (is_resumed start) stop_before ask) trades_capped max_pages 0
        (trades_begin start)

-- `newestTradeTime`
unfoldable pub newest_trade_time : ℕ → List TradeRecord → ℕ
newest_trade_time newest [] = newest
newest_trade_time newest (tr ∷ trades) =
    newest_trade_time (if after tr.timestamp newest then tr.timestamp else newest) trades

-- `mustMarshalResume` of a trade offset.
abbrev pub marshal_trade_resume : (TradeResume → String) → Option TradeResume → String
marshal_trade_resume encode none = ""
marshal_trade_resume encode (some q) = encode q

-- `tradeOutcome`
unfoldable pub trade_outcome : (TradeResume → String) → TradesFetched → ProvenanceOutcome
trade_outcome encode r = record {
  complete = r.complete;
  newest = newest_trade_time 0 r.trades;
  resume = marshal_trade_resume encode r.resume;
}

unfoldable pub decode_trade_resume : (String → Option TradeResume) → String → Option TradeResume
decode_trade_resume decode raw = if str_eq raw "" then none else decode raw

-- The trades of one `Fetch`, from what the last one stored.
unfoldable pub trade_run :
    (String → ℕ)
    → (ℕ → TradeQuery → Fetched TradeHistoryPage)
    → (String → Option TradeResume)
    → (TradeResume → String)
    → ℕ
    → ProvenanceCursor
    → ProvenanceOutcome
trade_run parse_steam_time ask decode encode max_pages pc =
    let start = decode_trade_resume decode pc.resume in
    let stop_before = if is_resumed start then 0 else pc.watermark in
    trade_outcome encode (fetch_trades parse_steam_time ask max_pages start stop_before)
