-- ===== src/Steam/Walk/Offsets.antt =====
-- `fetchTrades` of internal/infrastructure/clients/steam/trades.go: why it says that a range is
-- complete, and behind which trade the next walk goes on.
use mathlib.Core.List.{◌++◌}
use wealthfolio_connect_self.Prelude.{
  ℕ, ◌+◌, ◌≤◌, ◌<◌, String, Bool, true, false, ◌&&◌, ◌||◌, Option, none, some, List, [], ◌∷◌, ◌≡◌,
  refl, sym, ◌∙◌, ap, inl, inr, arith, str_eq, map, is_empty, if◌then◌else◌, Bool-cases,
}
use wealthfolio_connect_self.Prelude.Int.{ℤ, pos, is_positive, eq_ℤ}
use wealthfolio_connect_self.Prelude.Time.{second, unix, from_unix}
use wealthfolio_connect_self.Domain.Error.{Fetched, ok, Fetched-cases}
use wealthfolio_connect_self.Steam.Model.{TradeRecord}
use wealthfolio_connect_self.Steam.Match.{contains}
use wealthfolio_connect_self.Steam.Resolve.Distinct.{IsDistinct}
use wealthfolio_connect_self.Steam.Walk.{
  Turn, stop, go, walk-keeps, IsGathered, without_repeat-IsGathered, nothing_gathered-IsGathered,
}
use wealthfolio_connect_self.Steam.Walk.Trades.{
  RawTrade, TradeHistoryPage, TradeResume, TradeQuery, TradeWalk, TradesFetched, trades_result,
  trade_query, take_new, trades_capped, trades_begin, is_resumed, trade_record, take_trades,
  page_min_trade_time, is_known_trades, trades_received, trades_turn, fetch_trades,
}

-- The identifier of the last trade, or the one that the walk began with.
unfoldable pub last_id : String → List TradeRecord → String
last_id start [] = start
last_id start (t ∷ trades) = last_id t.trade_id trades

last_id-snoc :
    (start : String) (trades : List TradeRecord) (t : TradeRecord)
    → last_id start (trades ++ (t ∷ [])) ≡ t.trade_id
unfolding last_id
last_id-snoc start [] t = refl
last_id-snoc start (x ∷ trades) t = last_id-snoc x.trade_id trades t

-- The Unix time of the last trade with a time after 1970, or the one that the walk began with.
unfoldable pub last_time : ℤ → List TradeRecord → ℤ
last_time start [] = start
last_time start (t ∷ trades) =
    last_time (if is_positive (unix t.timestamp) then unix t.timestamp else start) trades

last_time-snoc :
    (start : ℤ) (trades : List TradeRecord) (t : TradeRecord)
    → last_time start (trades ++ (t ∷ []))
      ≡ (if is_positive (unix t.timestamp) then unix t.timestamp else last_time start trades)
unfolding last_time
last_time-snoc start [] t = refl
last_time-snoc start (x ∷ trades) t =
    last_time-snoc (if is_positive (unix x.timestamp) then unix x.timestamp else start) trades t

abbrev pub time_of : Option TradeResume → ℤ
time_of none = pos 0
time_of (some q) = unix q.after_time

abbrev pub id_of : Option TradeResume → String
id_of none = ""
id_of (some q) = q.after_id

abbrev after_time_of : Option TradeResume → ℕ
after_time_of none = 0
after_time_of (some q) = q.after_time

not_resumed : (start : Option TradeResume) → is_resumed start ≡ false → start ≡ none
not_resumed none h = refl
not_resumed (some q) h = cc

module _ (parse_steam_time : String → ℕ) (ask : ℕ → TradeQuery → Fetched TradeHistoryPage)
    (start : Option TradeResume) (stop_before : ℕ) where
  -- What ends a range: no trades, no more of them, or a walk from the newest page that reached a
  -- trade which is not more than a second newer than the watermark.
  pub data IsTradesEnd (page : TradeHistoryPage) : Type 0 where
    no_trades : is_empty page.trades ≡ true → IsTradesEnd page
    no_more : page.more ≡ false → IsTradesEnd page
    imported :
        start ≡ none
        → 0 < stop_before
        → 0 < page_min_trade_time parse_steam_time 0 page.trades
        → page_min_trade_time parse_steam_time 0 page.trades ≤ stop_before + second
        → IsTradesEnd page

  pub record IsTradesResult (r : TradesFetched) : Type 0 where
    pub distinct : IsDistinct (map (λ t. t.trade_id) r.trades)
    pub ended :
        r.complete ≡ true
        → (page : TradeHistoryPage) × ((i : ℕ) × (q : TradeQuery) × (ask i q ≡ ok page))
          × IsTradesEnd page
    pub behind :
        (q : TradeResume)
        → r.resume ≡ some q
        → (q.after_id ≡ last_id (id_of start) r.trades)
          × (q.after_time ≡ from_unix (last_time (time_of start) r.trades))
    pub closed : r.complete ≡ true → (r.resume ≡ none) × (r.error ≡ none)

  -- What holds in front of a turn.
  record IsTrading (w : TradeWalk) : Type 0 where
    gathered : IsGathered (λ t. t.trade_id) (record { all = w.all; seen = w.seen })
    last : w.after_id ≡ last_id (id_of start) w.all
    at : w.after_time ≡ last_time (time_of start) w.all

  IsTurned : Turn TradeWalk TradesFetched → Type 0
  IsTurned (stop r) = IsTradesResult r
  IsTurned (go w) = IsTrading w

  take_new-IsTrading :
      (b : Bool) (rec : TradeRecord) (w : TradeWalk)
      → (b ≡ false → contains rec.trade_id w.seen ≡ false)
      → IsTrading w
      → IsTrading (take_new b rec w)
  take_new-IsTrading true rec w new h = h
  take_new-IsTrading false rec w new h = record {
    gathered =
        without_repeat-IsGathered (λ t. t.trade_id) false rec
          (record { all = w.all; seen = w.seen }) (new refl) h.gathered;
    last = sym (last_id-snoc (id_of start) w.all rec);
    at =
        ap (λ z. if is_positive (unix rec.timestamp) then unix rec.timestamp else z) h.at
        ∙ sym (last_time-snoc (time_of start) w.all rec);
  }

  take_trades-IsTrading :
      (trades : List RawTrade) (w : TradeWalk)
      → IsTrading w
      → IsTrading (take_trades parse_steam_time trades w)
  unfolding take_trades trade_record
  take_trades-IsTrading [] w h = h
  take_trades-IsTrading (t ∷ trades) w h = take_trades-IsTrading trades _ (
      take_new-IsTrading (str_eq t.trade_id "" || contains t.trade_id w.seen)
        (trade_record parse_steam_time t) w (λ new. ground (arith, new)) h)

  stop-IsTradesResult :
      (w : TradeWalk) (page : TradeHistoryPage) (i : ℕ) (q : TradeQuery)
      → IsTrading w
      → ask i q ≡ ok page
      → IsTradesEnd page
      → IsTradesResult (trades_result w.all true none none)
  stop-IsTradesResult w page i q h is end = record {
    distinct = h.gathered.distinct;
    ended = λ e. (page, (i, q, is), end);
    behind = λ q' e. cc;
    closed = λ e. (refl, refl);
  }

  known_trades-imported :
      (page : TradeHistoryPage)
      → is_known_trades parse_steam_time (is_resumed start) stop_before page.trades ≡ true
      → IsTradesEnd page
  unfolding is_known_trades
  known_trades-imported page h =
      imported (not_resumed start (ground (arith, h))) (ground (arith, h)) (ground (arith, h))
        (ground (arith, h))

  trades_turn-IsTurned :
      (i : ℕ) (w : TradeWalk)
      → IsTrading w
      → IsTurned (trades_turn parse_steam_time (is_resumed start) stop_before ask i w)
  unfolding trades_received IsTurned
  trades_turn-IsTurned i w h = elim (Fetched-cases (ask i (trade_query w))) [
    | inr (e, is) ↦ rw is (record {
      distinct = h.gathered.distinct;
      ended = λ e. cc;
      behind = λ q e. cc;
      closed = λ e. cc;
    })
    | inl (page, is) ↦
        let q = trade_query w in
        let next = take_trades-IsTrading page.trades w h in
        elim (Bool-cases (is_empty page.trades)) [
          | inl empty ↦ rw (is, empty) (stop-IsTradesResult w page i q h is (no_trades empty))
          | inr filled ↦
              elim (Bool-cases
                (is_known_trades parse_steam_time (is_resumed start) stop_before page.trades)) [
                  | inl known ↦
                      rw (is, filled, known)
                        (stop-IsTradesResult _ page i q next is (known_trades-imported page known))
                  | inr onward ↦ elim (Bool-cases page.more) [
                    | inr last ↦
                        rw (is, filled, onward, last)
                          (stop-IsTradesResult _ page i q next is (no_more last))
                    | inl more ↦ rw (is, filled, onward, more) next
                  ]
                ]
        ]
  ]

  trades_capped-IsTradesResult : (w : TradeWalk) → IsTrading w → IsTradesResult (trades_capped w)
  unfolding trades_capped
  trades_capped-IsTradesResult w h =
      elim (Bool-cases (str_eq w.after_id "" && eq_ℤ w.after_time (pos 0))) [
        | inl nothing_left ↦ rw nothing_left (record {
          distinct = h.gathered.distinct;
          ended = λ e. cc;
          behind = λ q e. cc;
          closed = λ e. cc;
        })
        | inr offset ↦ rw offset (record {
          distinct = h.gathered.distinct;
          ended = λ e. cc;
          behind = λ q e. (sym (ap id_of e) ∙ h.last, sym (ap after_time_of e) ∙ ap from_unix h.at);
          closed = λ e. cc;
        })
      ]

  trades_begin-IsTrading : (s : Option TradeResume) → start ≡ s → IsTrading (trades_begin s)
  unfolding trades_begin last_id last_time
  trades_begin-IsTrading none is = record {
    gathered = nothing_gathered-IsGathered (λ t. t.trade_id);
    last = rw is refl;
    at = rw is refl;
  }
  trades_begin-IsTrading (some q) is = record {
    gathered = nothing_gathered-IsGathered (λ t. t.trade_id);
    last = rw is refl;
    at = rw is refl;
  }

  -- Whatever the server answers, a result of fetchTrades has each trade once; it is complete only
  -- if a page had no trades or was the last one, or if a walk from the newest page reached a trade
  -- that is at most a second newer than the watermark, and then it has no error and nothing to
  -- resume; an offset to resume from has the identifier of the last trade of the result and the
  -- time of the last one after 1970, or what the walk began with if it took none.
  pub fetch_trades-IsTradesResult :
      (max_pages : ℕ)
      → IsTradesResult (fetch_trades parse_steam_time ask max_pages start stop_before)
  unfolding fetch_trades IsTurned
  fetch_trades-IsTradesResult max_pages =
      walk-keeps (trades_turn parse_steam_time (is_resumed start) stop_before ask) trades_capped
        (λ i w. IsTrading w) IsTradesResult (λ i w w' h is. rw is at (trades_turn-IsTurned i w h))
        (λ i w r h is. rw is at (trades_turn-IsTurned i w h))
        (λ i w h. trades_capped-IsTradesResult w h) max_pages 0 (trades_begin start)
        (trades_begin-IsTrading start refl)
