-- ===== src/Persistence/Steam/Imports.antt =====
-- internal/infrastructure/persistence/steam_model.go: the imports of events, purchases, trades and lots.
use wealthfolio_connect_self.Prelude.{
  ℕ, String, Bool, Option, List, [], ◌∷◌, map, is_empty, if◌then◌else◌,
}
use wealthfolio_connect_self.Prelude.Int.{ℤ}
use wealthfolio_connect_self.Domain.Error.{
  wrapped, Fetched, ok, failed, Action, done, wrapping, ◌>>◌,
}
use wealthfolio_connect_self.Persistence.Steam.{SteamEventPo, SteamTables}

-- The rows of `repository`.
pub record SteamEventRow : Type 0 where
  pub external_id : String
  pub timestamp : ℕ
  pub kind : String
  pub market_hash_name : String
  pub quantity : ℤ
  pub asset_id : String
  pub matched : Bool

pub record SteamMarketRow (F : Type 0) : Type 0 where
  pub external_id : String
  pub type : String
  pub timestamp : ℕ
  pub market_hash_name : String
  pub class_id : String
  pub instance_id : String
  pub quantity : ℤ
  pub gross : F
  pub net : Option F
  pub currency : String

-- The sides are JSON already; an empty side is stored as the empty list, which `J` does not tell apart.
pub record SteamTradeRow (J : Type 0) : Type 0 where
  pub trade_id : String
  pub timestamp : ℕ
  pub other_steam_id : String
  pub status : String
  pub given : J
  pub received : J

pub record SteamLotRow (F : Type 0) : Type 0 where
  pub id : String
  pub market_hash_name : String
  pub quantity : ℤ
  pub acquired_at : ℕ
  pub unit_cost : Option F
  pub cost_currency : String
  pub source : String
  pub reference : String

-- A loop that stops at the first error.
abbrev pub each : {A D : Type 0} → (A → Action D) → List A → Action D
each f [] = done
each f (x ∷ xs) = f x >> each f xs

unfoldable pub po_of_event : String → SteamEventRow → SteamEventPo
po_of_event steam_id ev = record {
  steam_id = steam_id;
  external_id = ev.external_id;
  timestamp = ev.timestamp;
  kind = ev.kind;
  market_hash_name = ev.market_hash_name;
  quantity = ev.quantity;
  asset_id = ev.asset_id;
  matched = ev.matched;
}

unfoldable pub event_of_po : SteamEventPo → SteamEventRow
event_of_po po = record {
  external_id = po.external_id;
  timestamp = po.timestamp;
  kind = po.kind;
  market_hash_name = po.market_hash_name;
  quantity = po.quantity;
  asset_id = po.asset_id;
  matched = po.matched;
}

module _ {F J D : Type 0} (db : SteamTables F J D) where
  unfoldable pub record_events : String → List SteamEventRow → Action D
  record_events steam_id =
      each (λ ev. wrapping "steam events record" (db.create_event (po_of_event steam_id ev)))

  unfoldable pub unmatched_events : String → D → Fetched (List SteamEventRow)
  unmatched_events steam_id d = elim (db.unmatched steam_id d) [
    | failed e ↦ failed (wrapped "steam unmatched events" e)
    | ok pos ↦ ok (map event_of_po pos)
  ]

  unfoldable pub mark_events_matched : String → List String → Action D
  mark_events_matched steam_id ids =
      if is_empty ids
      then done
      else wrapping "steam events mark matched" (db.update_matched steam_id ids)

  unfoldable pub save_market_transactions : String → List (SteamMarketRow F) → Action D
  save_market_transactions steam_id = each λ tx. wrapping "steam market txs save" (
      db.create_market_tx (record {
        steam_id = steam_id;
        external_id = tx.external_id;
        type = tx.type;
        timestamp = tx.timestamp;
        market_hash_name = tx.market_hash_name;
        class_id = tx.class_id;
        instance_id = tx.instance_id;
        quantity = tx.quantity;
        gross = tx.gross;
        net = tx.net;
        currency = tx.currency;
      }))

  unfoldable pub save_trades : String → List (SteamTradeRow J) → Action D
  save_trades steam_id = each λ tr. wrapping "steam trades save" (
      db.create_trade (record {
        steam_id = steam_id;
        trade_id = tr.trade_id;
        timestamp = tr.timestamp;
        other_steam_id = tr.other_steam_id;
        status = tr.status;
        given = tr.given;
        received = tr.received;
      }))

  unfoldable pub save_lots : String → List (SteamLotRow F) → Action D
  save_lots steam_id lots = db.transaction (
      wrapping "steam lots clear" (db.delete_lots steam_id)
      >> each
          (λ l. wrapping "steam lots save" (
            db.create_lot (record {
              steam_id = steam_id;
              id = l.id;
              market_hash_name = l.market_hash_name;
              quantity = l.quantity;
              acquired_at = l.acquired_at;
              unit_cost = l.unit_cost;
              cost_currency = l.cost_currency;
              source = l.source;
              reference = l.reference;
            })))
          lots)
