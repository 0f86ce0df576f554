-- ===== src/Steam/Walk/History.antt =====
-- `fetchHistory` of internal/infrastructure/clients/steam/history.go and what `Fetch` of reconcile.go
-- makes of its results. `ask` is the request for a page, which may be answered differently each time;
-- `parse_rows` is `parseHistoryRows`, which matches the page's HTML against regular expressions.
use Prim.Native.String.{◌++◌}
use wealthfolio_connect_self.Prelude.{
  ℕ, ◌+◌, String, Bool, true, false, not, ◌&&◌, ◌||◌, Option, none, some, List, [], ◌∷◌, str_eq,
  is_empty, if◌then◌else◌,
}
use wealthfolio_connect_self.Prelude.Map.{Map, insert}
use wealthfolio_connect_self.Prelude.Time.{second, is_zero, before, after}
use wealthfolio_connect_self.Domain.Error.{Error, foreign, wrapped, Fetched, ok, failed}
use wealthfolio_connect_self.Steam.Model.{HistoryEvent}
use wealthfolio_connect_self.Steam.Match.{contains}
use wealthfolio_connect_self.Steam.Cursors.{ProvenanceCursor, ProvenanceOutcome}
use wealthfolio_connect_self.Steam.Walk.{Turn, stop, go, walk, Gathered, nothing_gathered, gather}

-- The fields of a provider's cursor, as the texts that `strVal` gives.
pub record HistoryCursor : Type 0 where
  pub time : String
  pub time_frac : String
  pub s : String

unfoldable pub cursor_empty : HistoryCursor → Bool
cursor_empty c = str_eq c.time "" && str_eq c.time_frac "" && str_eq c.s ""

unfoldable pub cursor_key : HistoryCursor → String
cursor_key c = c.time ++ "|" ++ c.time_frac ++ "|" ++ c.s

-- The cursor of a page: absent or `null`, what `json.Unmarshal` rejects, or what it reads.
pub data NextCursor : Type 0 where
  missing : NextCursor
  malformed : Error → NextCursor
  given : HistoryCursor → NextCursor

-- `success` is `truthy(env.Success)`, `descriptions` what `parseHistoryDescs` reads.
pub record HistoryPage : Type 0 where
  pub success : Bool
  pub descriptions : Map String
  pub html : String
  pub cursor : NextCursor

-- The variables of the loop.
pub record HistoryWalk : Type 0 where
  pub gathered : Gathered HistoryEvent
  pub descs : Map String
  pub cursor : Option HistoryCursor
  pub seen_cursor : List String
  pub next : Option HistoryCursor

-- The five results.
pub record HistoryFetched : Type 0 where
  pub events : List HistoryEvent
  pub descs : Map String
  pub complete : Bool
  pub resume : Option HistoryCursor
  pub error : Option Error

abbrev pub history_result :
    List HistoryEvent → Map String → Bool → Option HistoryCursor → Option Error → HistoryFetched
history_result events descs complete resume error = record {
  events = events;
  descs = descs;
  complete = complete;
  resume = resume;
  error = error;
}

-- `for k, d := range page { descs[k] = d }`
unfoldable pub add_descs : Map String → Map String → Map String
add_descs [] descs = descs
add_descs ((k, d) ∷ page) descs = add_descs page (insert k d descs)

abbrev pub earlier : ℕ → ℕ → ℕ
earlier earliest t =
    if is_zero t then earliest else if is_zero earliest || before t earliest then t else earliest

unfoldable pub page_min_time : ℕ → List HistoryEvent → ℕ
page_min_time earliest [] = earliest
page_min_time earliest (ev ∷ rows) = page_min_time (earlier earliest ev.timestamp) rows

-- A walk from the newest page came to what an earlier one has imported.
unfoldable pub is_known_territory : Bool → ℕ → List HistoryEvent → Bool
is_known_territory resume stop_before rows =
    let earliest = page_min_time 0 rows in
    not resume
    && not (is_zero stop_before)
    && not (is_zero earliest)
    && not (after earliest (stop_before + second))

-- The end of a turn, with the page's cursor.
unfoldable pub history_follow :
    Map String → Gathered HistoryEvent → HistoryWalk → NextCursor → Turn HistoryWalk HistoryFetched
history_follow descs g w missing = stop (history_result g.all descs true none none)
history_follow descs g w (malformed e) =
    stop
      (history_result g.all descs false w.cursor (some (wrapped "steam: history cursor decode" e)))
history_follow descs g w (given c) =
    if cursor_empty c
    then stop (history_result g.all descs false none none)
    else if contains (cursor_key c) w.seen_cursor
    then stop (history_result g.all descs false none none)
    else go (record {
      gathered = g;
      descs = descs;
      cursor = some c;
      seen_cursor = cursor_key c ∷ w.seen_cursor;
      next = some c;
    })

module _ (parse_rows : String → Map String → List HistoryEvent) (resume : Bool)
    (stop_before : ℕ) where
  unfoldable pub history_rows_read :
      HistoryPage → Map String → List HistoryEvent → HistoryWalk → Turn HistoryWalk HistoryFetched
  history_rows_read env descs rows w =
      let g = gather (λ ev. ev.external_id) rows w.gathered in
      if is_empty rows
      then stop (history_result w.gathered.all descs true none none)
      else if is_known_territory resume stop_before rows
      then stop (history_result g.all descs true none none)
      else history_follow descs g w env.cursor

  unfoldable pub history_received :
      HistoryWalk → Fetched HistoryPage → Turn HistoryWalk HistoryFetched
  history_received w (failed e) = stop (history_result w.gathered.all w.descs false none (some e))
  history_received w (ok env) =
      let descs = add_descs env.descriptions w.descs in
      if not env.success
      then stop (
          history_result w.gathered.all w.descs false none
            (some (wrapped "steam inventory history" (foreign "success=false"))))
      else history_rows_read env descs (parse_rows env.html descs) w

  -- `ask` has the number of the request and the cursor.
  abbrev pub history_turn :
      (ℕ → Option HistoryCursor → Fetched HistoryPage)
      → ℕ
      → HistoryWalk
      → Turn HistoryWalk HistoryFetched
  history_turn ask page w = history_received w (ask page w.cursor)

abbrev pub history_begin : Option HistoryCursor → HistoryWalk
history_begin cursor = record {
  gathered = nothing_gathered;
  descs = [];
  cursor = cursor;
  seen_cursor = [];
  next = none;
}

abbrev pub history_capped : HistoryWalk → HistoryFetched
history_capped w = history_result w.gathered.all w.descs false w.next none

-- `start != nil && !start.empty()`
unfoldable pub usable_start : Option HistoryCursor → Option HistoryCursor
usable_start none = none
usable_start (some c) = if cursor_empty c then none else some c

abbrev pub is_present : Option HistoryCursor → Bool
is_present none = false
is_present (some c) = true

module _ (parse_rows : String → Map String → List HistoryEvent)
    (ask : ℕ → Option HistoryCursor → Fetched HistoryPage) where
  unfoldable pub fetch_history : ℕ → Option HistoryCursor → ℕ → HistoryFetched
  fetch_history max_pages start stop_before =
      walk (history_turn parse_rows (is_present (usable_start start)) stop_before ask)
        history_capped max_pages 0 (history_begin (usable_start start))

-- `newestEventTime`
unfoldable pub newest_event_time : ℕ → List HistoryEvent → ℕ
newest_event_time newest [] = newest
newest_event_time newest (ev ∷ events) =
    newest_event_time (if after ev.timestamp newest then ev.timestamp else newest) events

-- `mustMarshalResume` of a cursor.
abbrev pub marshal_resume : (HistoryCursor → String) → Option HistoryCursor → String
marshal_resume encode none = ""
marshal_resume encode (some c) = encode c

-- `histOutcome`
unfoldable pub history_outcome : (HistoryCursor → String) → HistoryFetched → ProvenanceOutcome
history_outcome encode r = record {
  complete = r.complete;
  newest = newest_event_time 0 r.events;
  resume = marshal_resume encode r.resume;
}

-- `none` stands for an offset that is absent or corrupt; `decode` is its JSON.
unfoldable pub decode_history_resume :
    (String → Option HistoryCursor) → String → Option HistoryCursor
decode_history_resume decode raw = if str_eq raw "" then none else usable_start (decode raw)

-- The history of one `Fetch`, from what the last one stored.
unfoldable pub history_run :
    (String → Map String → List HistoryEvent)
    → (ℕ → Option HistoryCursor → Fetched HistoryPage)
    → (String → Option HistoryCursor)
    → (HistoryCursor → String)
    → ℕ
    → ProvenanceCursor
    → ProvenanceOutcome
history_run parse_rows ask decode encode max_pages pc =
    let start = decode_history_resume decode pc.resume in
    let stop_before = if is_present start then 0 else pc.watermark in
    history_outcome encode (fetch_history parse_rows ask max_pages start stop_before)
