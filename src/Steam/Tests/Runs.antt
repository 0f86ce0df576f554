-- ===== src/Steam/Tests/Runs.antt =====
-- Lots, cursors, empty inventories, failed writes and prices.
use mathlib.Core.List.{Mem}
use wealthfolio_connect_self.Prelude.{
  map, ℕ, ◌+◌, ◌*◌, ◌≤◌, String, true, false, Option, none, some, List, [], ◌∷◌, length, ◌≡◌, ◌⊎◌,
  refl,
}
use wealthfolio_connect_self.Prelude.Int.{pos}
use wealthfolio_connect_self.Prelude.Map.{lookup, insert}
use wealthfolio_connect_self.Prelude.Search.{keep}
use wealthfolio_connect_self.Prelude.Text.{Unicode, map_text, is_space}
use wealthfolio_connect_self.Prelude.Time.{second}
use wealthfolio_connect_self.Domain.Error.{foreign, Fetched, ok, failed, not_found}
use wealthfolio_connect_self.Steam.Model.{Resolution, AcquisitionLot}
use wealthfolio_connect_self.Steam.Resolve.{unresolved}
use wealthfolio_connect_self.Steam.Lots.{build_lots}
use wealthfolio_connect_self.Steam.Resolve.Distinct.{IsDistinct}
use wealthfolio_connect_self.Steam.Lots.Members.{IsLot, members, IsLotOf, build_lots-IsLot}
use wealthfolio_connect_self.Steam.Cursors.{
  SyncCursor, ProvenanceOutcome, CursorJson, no_cursor, no_outcome, cursor_scope_empty_probe,
  steam_cursor_scope,
}
use wealthfolio_connect_self.Steam.Cursors.Progress.{Observed, after_runs, after_runs-watermark}
use wealthfolio_connect_self.Steam.EmptyInventory.{
  confirm_empty_inventory, empty_probe, is_second_sighting, confirm_empty_inventory-Seen,
}
use wealthfolio_connect_self.Persistence.Steam.Snapshots.{SteamInventorySnapshot}
use wealthfolio_connect_self.Steam.Persist.{SteamStore, Pending, SyncRun, Tools, persist_provenance}
use wealthfolio_connect_self.Steam.Persist.Failures.{
  persist_provenance-partial, persist_provenance-retry,
}
use wealthfolio_connect_self.Steam.Names.{
  price_dedupe_key, normalize_steam_name, fields, split_spaces, joined_fields,
}
use wealthfolio_connect_self.Steam.Valuation.{pricable}
use wealthfolio_connect_self.Steam.Assemble.{
  Quotes, Run, price_of, price_item, is_filtered, assemble_items,
}
use wealthfolio_connect_self.Steam.Assemble.Dust.{IsSplit, assemble_items-IsSplit}
use wealthfolio_connect_self.Steam.Assemble.Shared.{price_item-Shared}
use wealthfolio_connect_self.Steam.Tests.{by_text, whole_steam, knife, case, owned, events}

abbrev cases : List (Resolution ℕ)
cases = unresolved (case "a2") ∷ unresolved (case "a3") ∷ []

build_lots-IsLot_example :
    IsLot (λ name. members name cases) (build_lots by_text cases)
    × ((name : String)
        → 2 ≤ length (members name cases)
        → (lot : AcquisitionLot ℕ) × Mem lot (build_lots by_text cases)
          × IsLotOf name (members name cases) lot)
    × IsDistinct (map (λ lot. lot.market_hash_name) (build_lots by_text cases))
build_lots-IsLot_example = build_lots-IsLot by_text cases

-- A capped run, a failed one, and one that ends.
abbrev three_runs : List ProvenanceOutcome
three_runs =
    record { complete = false; newest = 50; resume = "{}" }
    ∷ no_outcome
    ∷ record { complete = true; newest = 70; resume = "" }
    ∷ []

after_runs-watermark_example :
    (no_cursor.watermark ≤ (after_runs no_cursor three_runs).watermark)
    × ((t : ℕ) → Observed t three_runs → t ≤ (after_runs no_cursor three_runs).watermark)
    × (((after_runs no_cursor three_runs).watermark ≡ no_cursor.watermark)
        ⊎ Observed (after_runs no_cursor three_runs).watermark three_runs)
after_runs-watermark_example = after_runs-watermark no_cursor three_runs

-- The text of every time is that of one second.
abbrev codec : CursorJson
codec = record {
  encode = λ pc. some "{}";
  decode = λ s. (no_cursor, true);
  parse_rfc3339 = λ s. some (5 * second);
  format_rfc3339 = λ t. "0001-01-01T00:00:05Z";
  decode_offset = λ s. none;
}

abbrev known_assets : SteamInventorySnapshot
known_assets = record {
  id = "s1";
  steam_id = "7656";
  taken_at = 3 * second;
  complete = true;
  assets =
      record {
        asset_id = "a1";
        class_id = "c1";
        instance_id = "0";
        market_hash_name = "Knife";
        amount = pos 1;
      }
      ∷ [];
}

abbrev probe_read : String → Fetched SyncCursor
probe_read scope = ok (empty_probe codec "7656" (5 * second + 1))

confirm_empty_inventory-Seen_example :
    (probe : SyncCursor) × (t : ℕ) × (probe_read
        (steam_cursor_scope cursor_scope_empty_probe "7656")
      ≡ ok probe)
    × (codec.parse_rfc3339 probe.position ≡ some t)
    × (known_assets.taken_at ≤ t)
unfolding confirm_empty_inventory is_second_sighting
confirm_empty_inventory-Seen_example =
    confirm_empty_inventory-Seen codec "7656" known_assets probe_read refl refl

-- A store that counts the replacements of the lots and the marks, and cannot save acquisitions.
record Writes : Type 0 where
  lots : ℕ
  marks : ℕ

abbrev counting : SteamStore ℕ ℕ Writes
counting = record {
  latest_snapshot = λ id d. failed not_found;
  save_snapshot = λ snap d. (none, d);
  record_events = λ id rows d. (none, d);
  unmatched_events = λ id d. ok [];
  mark_events_matched = λ id ids d. (none, record d { marks = d.marks + 1 });
  save_market_transactions = λ id rows d. (none, d);
  save_trades = λ id rows d. (none, d);
  save_lots = λ id rows d. (none, record d { lots = d.lots + 1 });
  save_acquisitions = λ id rows d. (some (foreign "read only"), d);
  acquisitions_for_assets = λ id ids d. ok [];
}

abbrev tools : Tools ℕ
tools = record {
  trade_json = λ assets. 0;
  stamp = λ now. "";
  text_less = by_text;
  json = codec;
  get = none;
}

abbrev partial_sync : SyncRun ℕ
partial_sync = record {
  items = owned;
  complete = false;
  outcomes = record { history = no_outcome; market = no_outcome; trades = no_outcome };
  events = events;
  market_txs = [];
  trades = [];
  resolved = cases;
  unmatched = [];
}

abbrev nothing_pending : Pending
nothing_pending = record { cursors = []; dirty = false }

abbrev no_writes : Writes
no_writes = record { lots = 0; marks = 0 }

persist_provenance-partial_example :
    (persist_provenance tools "7656"
      (some counting)
      100
      partial_sync
      nothing_pending
      no_writes).0.1.lots
    ≡ 0
persist_provenance-partial_example =
    persist_provenance-partial tools "7656" counting (λ d. d.lots)
      (record {
        snapshot = λ snap d. refl;
        events = λ id rows d. refl;
        market = λ id rows d. refl;
        trades = λ id rows d. refl;
        acquisitions = λ id rows d. refl;
      })
      (λ id ids d. refl) 100 partial_sync nothing_pending no_writes refl

abbrev whole_sync : SyncRun ℕ
whole_sync = record partial_sync { complete = true }

persist_provenance-retry_example :
    (persist_provenance tools "7656"
      (some counting)
      100
      whole_sync
      nothing_pending
      no_writes).0.1.marks
    ≡ 0
persist_provenance-retry_example =
    persist_provenance-retry tools "7656" counting (λ d. d.marks)
      (record {
        snapshot = λ snap d. refl;
        events = λ id rows d. refl;
        market = λ id rows d. refl;
        trades = λ id rows d. refl;
        acquisitions = λ id rows d. refl;
      })
      (λ id rows d. refl) 100 whole_sync nothing_pending no_writes (λ e. refl)

-- A market that asks 4 for everything at the first call, and 5 later.
abbrev market : Quotes ℕ ℕ
market = record {
  current_price = λ name calls. (some (4 + calls, "steam_median", 7), calls + 1);
  stale_price = λ name calls. none;
  price_fails = λ calls. 0;
}

abbrev same_case : Unicode
same_case = record { lower = λ c. c; upper = λ c. c }

abbrev first_call : Run ℕ ℕ
first_call = record { priced = []; pricing = true; behind = 0 }

assemble_items-IsSplit_example :
    IsSplit same_case whole_steam market 5 "7656" "steam-7656" 100 [] cases
      (assemble_items same_case whole_steam market 5 "7656" "steam-7656" 100 [] cases first_call).0
assemble_items-IsSplit_example =
    assemble_items-IsSplit same_case whole_steam market 5 "7656" "steam-7656" 100 [] cases
      first_call

price_item-Shared_example :
    ((price_item same_case whole_steam market
        (unresolved (case "a3"))
        (assemble_items same_case whole_steam market 5 "7656" "steam-7656" 100 []
          (unresolved knife ∷ [])
          (price_item same_case whole_steam market (unresolved (case "a2")) first_call).1).1).0
      ≡ (price_item same_case whole_steam market (unresolved (case "a2")) first_call).0)
    × ((quote : Option (ℕ × String))
        → is_filtered same_case whole_steam 5 [] (unresolved (case "a3")) quote
          ≡ is_filtered same_case whole_steam 5 [] (unresolved (case "a2")) quote)
unfolding unresolved pricable price_item price_of price_dedupe_key normalize_steam_name fields
    split_spaces joined_fields is_space map_text keep lookup insert assemble_items
price_item-Shared_example =
    price_item-Shared same_case whole_steam market 5 "7656" "steam-7656" 100 []
      (unresolved (case "a2")) (unresolved (case "a3")) (unresolved knife ∷ []) first_call refl refl
      refl refl refl
