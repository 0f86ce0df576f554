-- ===== src/Steam/Cursors.antt =====
-- internal/infrastructure/clients/steam/reconcile.go: the durable state of the walks through history,
-- purchases and trades. A resume offset is raw JSON, and the empty text where there is none.
pub mod Progress
use Prim.Native.String.{◌++◌}
use wealthfolio_connect_self.Prelude.{
  ℕ, ◌-◌, String, Bool, true, false, not, ◌&&◌, ◌||◌, Option, none, some, List, [], ◌∷◌, str_eq,
  if◌then◌else◌,
}
use wealthfolio_connect_self.Prelude.Int.{ℤ, pos, negsuc}
use wealthfolio_connect_self.Prelude.Text.{trim_space}
use wealthfolio_connect_self.Prelude.Time.{is_zero, after}
use wealthfolio_connect_self.Domain.Error.{Error, Fetched, ok, failed}

-- `repository.SyncCursor`
pub record SyncCursor : Type 0 where
  pub scope : String
  pub position : String
  pub complete : Bool
  pub updated_at : ℕ

pub record ProvenanceCursor : Type 0 where
  pub watermark : ℕ
  pub resume : String

pub record ProvenanceOutcome : Type 0 where
  pub complete : Bool
  pub newest : ℕ
  pub resume : String

pub record ProvenanceOutcomes : Type 0 where
  pub history : ProvenanceOutcome
  pub market : ProvenanceOutcome
  pub trades : ProvenanceOutcome

abbrev pub no_outcome : ProvenanceOutcome
no_outcome = record { complete = false; newest = 0; resume = "" }

abbrev pub no_cursor : ProvenanceCursor
no_cursor = record { watermark = 0; resume = "" }

abbrev pub cursor_scope_inventory : String
cursor_scope_inventory = "steam-inventory"

abbrev pub cursor_scope_history : String
cursor_scope_history = "steam-history"

abbrev pub cursor_scope_market : String
cursor_scope_market = "steam-market"

abbrev pub cursor_scope_trades : String
cursor_scope_trades = "steam-trades"

abbrev pub cursor_scope_empty_probe : String
cursor_scope_empty_probe = "steam-empty-probe"

unfoldable pub steam_cursor_scope : String → String → String
steam_cursor_scope base steam_id = base ++ ":" ++ trim_space steam_id

-- The JSON of a cursor. `decode` gives what the variable holds after the call, and whether there was
-- no error; `parse_rfc3339` is `time.Parse`, and `encode` fails as `json.Marshal` may.
pub record CursorJson : Type 0 where
  pub encode : ProvenanceCursor → Option String
  pub decode : String → ProvenanceCursor × Bool
  pub parse_rfc3339 : String → Option ℕ
  pub format_rfc3339 : ℕ → String
  pub decode_offset : String → Option ℤ

unfoldable pub merge_provenance_cursor : ProvenanceCursor → ProvenanceOutcome → ProvenanceCursor
merge_provenance_cursor prev out =
    if not out.complete && str_eq out.resume "" then prev else record {
      watermark =
          if not (is_zero out.newest) && after out.newest prev.watermark
          then out.newest
          else prev.watermark;
      resume = if not out.complete && not (str_eq out.resume "") then out.resume else "";
    }

-- `time.Parse` is tried where `json.Unmarshal` fails.
abbrev pub or_bare_time : ProvenanceCursor × Bool → Option ℕ → ProvenanceCursor
or_bare_time (pc, true) t = pc
or_bare_time (pc, false) none = pc
or_bare_time (pc, false) (some t) = record pc { watermark = t }

module _ (json : CursorJson) where
  -- The JSON, or else the bare time of an earlier release.
  unfoldable pub decoded_cursor : String → ProvenanceCursor
  decoded_cursor position = or_bare_time (json.decode position) (json.parse_rfc3339 position)

  -- `get` is `cursors.Get`, `none` without a cursor store.
  unfoldable pub load_provenance_cursor :
      Option (String → Fetched SyncCursor) → String → ProvenanceCursor
  load_provenance_cursor none scope = no_cursor
  load_provenance_cursor (some get) scope = elim (get scope) [
    | failed e ↦ no_cursor
    | ok cur ↦ decoded_cursor cur.position
  ]

  -- `none` stands for an offset that is absent or corrupt.
  unfoldable pub decode_market_resume : String → Option ℕ
  decode_market_resume raw = if str_eq raw "" then none else elim (json.decode_offset raw) [
    | none ↦ none
    | some (negsuc n) ↦ none
    | some (pos offset) ↦ some offset
  ]

abbrev pub market_resume_overlap : ℕ
market_resume_overlap = 500

-- Where the walk through the purchases starts: `max(0, off - marketResumeOverlap)`.
unfoldable pub market_start : Option ℕ → ℕ
market_start none = 0
market_start (some offset) = offset - market_resume_overlap
