-- ===== src/Steam/Walk/Ends.antt =====
-- `fetchHistory` of internal/infrastructure/clients/steam/history.go: why it says that a range is
-- complete, and where the next walk may go on.
use wealthfolio_connect_self.Prelude.{
  ℕ, ◌+◌, ◌≤◌, ◌<◌, String, true, false, not, Option, none, some, List, ◌≡◌, refl, sym, ◌⊎◌,
  if◌then◌else◌, inl, inr, arith, map, is_empty, Bool-cases,
}
use mathlib.Core.Path.{subst}
use wealthfolio_connect_self.Prelude.Map.{Map}
use wealthfolio_connect_self.Prelude.Time.{second}
use wealthfolio_connect_self.Domain.Error.{Error, foreign, wrapped, Fetched, ok, Fetched-cases}
use wealthfolio_connect_self.Steam.Model.{HistoryEvent}
use wealthfolio_connect_self.Steam.Match.{contains}
use wealthfolio_connect_self.Steam.Resolve.Distinct.{IsDistinct}
use wealthfolio_connect_self.Steam.Walk.{
  Turn, stop, go, walk, walk-keeps, Gathered, IsGathered, gather-IsGathered,
  nothing_gathered-IsGathered,
}
use wealthfolio_connect_self.Steam.Walk.History.{
  HistoryCursor, HistoryPage, HistoryWalk, HistoryFetched, NextCursor, history_result, missing,
  malformed, given, cursor_empty, cursor_key, add_descs, page_min_time, is_known_territory,
  history_follow, history_rows_read, history_received, history_turn, history_begin, history_capped,
  usable_start, is_present, fetch_history,
}

module _ (parse_rows : String → Map String → List HistoryEvent)
    (ask : ℕ → Option HistoryCursor → Fetched HistoryPage) (first : Option HistoryCursor)
    (stop_before : ℕ) where
  -- A page that Steam gave, with the rows that were read from it.
  pub record Received : Type 0 where
    pub page : ℕ
    pub at : Option HistoryCursor
    pub env : HistoryPage
    pub descs : Map String
    pub answered : ask page at ≡ ok env
    pub succeeded : env.success ≡ true

  -- What ends a range: nothing is left, there is no further page, or a walk from the newest page
  -- reached a row that is not more than a second newer than the watermark.
  pub data IsEnd (r : Received) : Type 0 where
    no_rows : is_empty (parse_rows r.env.html r.descs) ≡ true → IsEnd r
    no_further : r.env.cursor ≡ missing → IsEnd r
    imported :
        first ≡ none
        → 0 < stop_before
        → 0 < page_min_time 0 (parse_rows r.env.html r.descs)
        → page_min_time 0 (parse_rows r.env.html r.descs) ≤ stop_before + second
        → IsEnd r

  -- A cursor is the walk's first, or one that a page gave.
  pub IsProvided : Option HistoryCursor → Type 0
  IsProvided none = Unit
  IsProvided (some c) =
      (first ≡ some c) ⊎ ((r : Received) × (r.env.cursor ≡ given c) × (cursor_empty c ≡ false))

  pub record IsResult (r : HistoryFetched) : Type 0 where
    pub distinct : IsDistinct (map (λ ev. ev.external_id) r.events)
    pub ended : r.complete ≡ true → (page : Received) × IsEnd page
    pub resumable : IsProvided r.resume
    pub closed : r.complete ≡ true → (r.resume ≡ none) × (r.error ≡ none)

  -- What holds in front of a turn.
  record IsRunning (w : HistoryWalk) : Type 0 where
    gathered : IsGathered (λ ev. ev.external_id) w.gathered
    cursor : IsProvided w.cursor
    next : IsProvided w.next

  -- What a turn makes of it.
  IsTurned : Turn HistoryWalk HistoryFetched → Type 0
  IsTurned (stop r) = IsResult r
  IsTurned (go w) = IsRunning w

  -- A `return` that is not complete.
  partial-IsResult :
      (g : Gathered HistoryEvent) (descs : Map String) (resume : Option HistoryCursor)
      (error : Option Error)
      → IsGathered (λ ev. ev.external_id) g
      → IsProvided resume
      → IsResult (history_result g.all descs false resume error)
  partial-IsResult g descs resume error h from = record {
    distinct = h.distinct;
    ended = λ e. cc;
    resumable = from;
    closed = λ e. cc;
  }

  complete-IsResult :
      (g : Gathered HistoryEvent) (descs : Map String) (r : Received)
      → IsGathered (λ ev. ev.external_id) g
      → IsEnd r
      → IsResult (history_result g.all descs true none none)
  unfolding IsProvided
  complete-IsResult g descs r h end = record {
    distinct = h.distinct;
    ended = λ e. (r, end);
    resumable = tt;
    closed = λ e. (refl, refl);
  }

  history_follow-IsTurned :
      (r : Received) (descs : Map String) (g : Gathered HistoryEvent) (w : HistoryWalk)
      (at : NextCursor)
      → IsGathered (λ ev. ev.external_id) g
      → IsRunning w
      → r.env.cursor ≡ at
      → IsTurned (history_follow descs g w at)
  unfolding history_follow IsTurned IsProvided
  history_follow-IsTurned r descs g w missing h run is =
      complete-IsResult g descs r h (no_further is)
  history_follow-IsTurned r descs g w (malformed e) h run is =
      partial-IsResult g descs w.cursor _ h run.cursor
  history_follow-IsTurned r descs g w (given c) h run is = elim (Bool-cases (cursor_empty c)) [
    | inl empty ↦ rw empty (partial-IsResult g descs none none h tt)
    | inr usable ↦ elim (Bool-cases (contains (cursor_key c) w.seen_cursor)) [
      | inl stalled ↦ rw (usable, stalled) (partial-IsResult g descs none none h tt)
      | inr new ↦
          let from : IsProvided (some c) = inr (r, is, usable) in
          rw (usable, new) (record { gathered = h; cursor = from; next = from })
    ]
  ]

  known_territory-imported :
      (rows : List HistoryEvent)
      → is_known_territory (is_present first) stop_before rows ≡ true
      → (is_present first ≡ false)
        × (0 < stop_before)
        × (0 < page_min_time 0 rows)
        × (page_min_time 0 rows ≤ stop_before + second)
  unfolding is_known_territory
  known_territory-imported rows h = ground (arith, h)

  absent_none : (c : Option HistoryCursor) → is_present c ≡ false → c ≡ none
  absent_none none h = refl
  absent_none (some c) h = cc

  history_rows_read-IsTurned :
      (r : Received) (w : HistoryWalk)
      → IsRunning w
      → IsTurned (
          history_rows_read parse_rows
            (is_present first)
            stop_before
            r.env
            r.descs
            (parse_rows r.env.html r.descs)
            w)
  unfolding history_rows_read IsTurned
  history_rows_read-IsTurned r w run =
      let rows = parse_rows r.env.html r.descs in
      let h = gather-IsGathered (λ ev. ev.external_id) rows w.gathered run.gathered in
      elim (Bool-cases (is_empty rows)) [
        | inl none_left ↦
            rw none_left (complete-IsResult w.gathered r.descs r run.gathered (no_rows none_left))
        | inr some_left ↦
            elim (Bool-cases (is_known_territory (is_present first) stop_before rows)) [
              | inl reached ↦
                  let (fresh, set, dated, below) = known_territory-imported rows reached in
                  rw (some_left, reached)
                    (complete-IsResult _ r.descs r h
                      (imported (absent_none first fresh) set dated below))
              | inr onward ↦
                  rw (some_left, onward)
                    (history_follow-IsTurned r r.descs _ w r.env.cursor h run refl)
            ]
      ]

  history_turn-IsTurned :
      (page : ℕ) (w : HistoryWalk)
      → IsRunning w
      → IsTurned (history_turn parse_rows (is_present first) stop_before ask page w)
  unfolding history_received IsTurned IsProvided
  history_turn-IsTurned page w run = elim (Fetched-cases (ask page w.cursor)) [
    | inr (e, is) ↦ rw is (partial-IsResult w.gathered w.descs none _ run.gathered tt)
    | inl (env, is) ↦ elim (Bool-cases env.success) [
      | inr refused ↦ rw (is, refused) (partial-IsResult w.gathered w.descs none _ run.gathered tt)
      | inl good ↦
          let r : Received = record {
            page = page;
            at = w.cursor;
            env = env;
            descs = add_descs env.descriptions w.descs;
            answered = is;
            succeeded = good;
          } in
          let turned = history_rows_read-IsTurned r w run in
          rw is (
            subst
              (λ b. IsTurned (
                if not b
                then stop (
                    history_result w.gathered.all w.descs false none
                      (some (wrapped "steam inventory history" (foreign "success=false"))))
                else history_rows_read parse_rows (is_present first) stop_before env r.descs
                    (parse_rows env.html r.descs) w))
              (sym good) turned)
    ]
  ]

  begin : (c : Option HistoryCursor) → first ≡ c → IsRunning (history_begin c)
  unfolding IsProvided
  begin none is = record {
    gathered = nothing_gathered-IsGathered (λ ev. ev.external_id);
    cursor = tt;
    next = tt;
  }
  begin (some c) is = record {
    gathered = nothing_gathered-IsGathered (λ ev. ev.external_id);
    cursor = inl is;
    next = tt;
  }

  -- The loop, from a cursor that `fetchHistory` has tested.
  pub walk-IsResult :
      (max_pages : ℕ)
      → IsResult (
          walk
            (history_turn parse_rows (is_present first) stop_before ask)
            history_capped
            max_pages
            0
            (history_begin first))
  unfolding IsTurned
  walk-IsResult max_pages =
      walk-keeps (history_turn parse_rows (is_present first) stop_before ask) history_capped
        (λ page w. IsRunning w) IsResult
        (λ page w w' run is. rw is at (history_turn-IsTurned page w run))
        (λ page w r run is. rw is at (history_turn-IsTurned page w run))
        (λ page w run. partial-IsResult w.gathered w.descs w.next none run.gathered run.next)
        max_pages 0 (history_begin first) (begin first refl)

-- Whatever the server answers, a result of fetchHistory has each external identifier once; it is
-- complete only if a page had no rows or no cursor, or if a walk from the newest page reached a
-- row that is at most a second newer than the watermark, and then it has no error and nothing to
-- resume; a cursor to resume from is the one that the walk began with, or one that a page gave.
pub fetch_history-IsResult :
    (parse_rows : String → Map String → List HistoryEvent)
    (ask : ℕ → Option HistoryCursor → Fetched HistoryPage) (max_pages : ℕ)
    (start : Option HistoryCursor) (stop_before : ℕ)
    → IsResult parse_rows ask
        (usable_start start)
        stop_before
        (fetch_history parse_rows ask max_pages start stop_before)
unfolding fetch_history
fetch_history-IsResult parse_rows ask max_pages start stop_before =
    walk-IsResult parse_rows ask (usable_start start) stop_before max_pages
