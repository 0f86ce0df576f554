-- ===== src/Steam/Tests.antt =====
-- Runs of the Steam client on a small inventory, with natural numbers in place of floats.
mod Matching
mod Runs
mod Walks
use Prim.Native.String.{compare}
use Prim.Native.Nat.{Ordering}
use wealthfolio_connect_self.Prelude.{
  ℕ, ◌+◌, ◌*◌, ◌-◌, ◌/◌, String, Bool, true, false, none, some, List, [], ◌∷◌, ltb, leb, ◌==◌,
}
use wealthfolio_connect_self.Prelude.Int.{ℤ, pos, pos_part}
use wealthfolio_connect_self.Prelude.Map.{Map}
use wealthfolio_connect_self.Prelude.Time.{hour}
use wealthfolio_connect_self.Steam.Model.{
  InventoryItem, HistoryEvent, MarketTransaction, TradeRecord, Resolution, SteamFloats,
  event_traded, event_market_buy,
}

abbrev pub by_text : String → String → Bool
by_text a b = elim (compare a b) [ Ordering.lt ↦ true | _ ↦ false ]

abbrev pub whole_steam : SteamFloats ℕ
whole_steam = record {
  zero = 0;
  hundred = 100;
  of_int = pos_part;
  sub = λ a b. a - b;
  mul = λ a b. a * b;
  div = λ a b. a / b;
  equal = λ a b. a == b;
  less = λ a b. ltb a b;
  less_equal = λ a b. leb a b;
}

abbrev pub knife : InventoryItem
knife = record {
  asset_id = "a1";
  class_id = "c1";
  instance_id = "0";
  amount = pos 1;
  market_hash_name = "Knife";
  marketable = true;
  tradable = true;
  name = "Knife";
  type = "";
  tags = [];
  has_description = true;
}

abbrev pub case : String → InventoryItem
case asset_id = record {
  asset_id = asset_id;
  class_id = "c2";
  instance_id = "0";
  amount = pos 1;
  market_hash_name = "Gamma 2 Case";
  marketable = true;
  tradable = true;
  name = "Gamma 2 Case";
  type = "";
  tags = [];
  has_description = true;
}

abbrev pub owned : List InventoryItem
owned = knife ∷ case "a2" ∷ case "a3" ∷ []

-- The knife was traded in, and a case was bought.
abbrev pub traded_in : HistoryEvent
traded_in = record {
  external_id = "h1";
  timestamp = 1000 * hour;
  kind = event_traded;
  market_hash_name = "Knife";
  quantity = pos 1;
  asset_id = "a1";
  class_id = "c1";
  instance_id = "0";
}

abbrev pub case_bought : HistoryEvent
case_bought = record {
  external_id = "h2";
  timestamp = 1010 * hour;
  kind = event_market_buy;
  market_hash_name = "Gamma 2 Case";
  quantity = pos 1;
  asset_id = "";
  class_id = "c2";
  instance_id = "0";
}

abbrev pub events : List HistoryEvent
events = traded_in ∷ case_bought ∷ []

abbrev pub purchase : MarketTransaction ℕ
purchase = record {
  external_id = "m1";
  type = "buy";
  timestamp = 1009 * hour;
  market_hash_name = "Gamma 2 Case";
  class_id = "";
  instance_id = "";
  quantity = pos 1;
  gross = 4;
  net = none;
  currency = "USD";
}

abbrev pub purchases : Map (MarketTransaction ℕ)
purchases = ("m1", purchase) ∷ []

abbrev pub trades : List TradeRecord
trades = []
