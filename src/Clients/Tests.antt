-- ===== src/Clients/Tests.antt =====
-- The translation of a small snapshot, with natural numbers in place of floats.

use wealthfolio_connect_self.Prelude.{
  map, ℕ, ◌+◌, ◌*◌, ◌/◌, ◌≡◌, refl, none, some, [], ◌∷◌, ltb, ◌==◌,
}
use wealthfolio_connect_self.Prelude.Text.{
  Unicode, map_text, trim_space, trim_left, trim_right, is_space,
}
use wealthfolio_connect_self.Clients.Cex.{
  Floats, Trade, split_pair, upper_trimmed, split_dash, remove_dashes, strip_first, strip_suffix,
}
use wealthfolio_connect_self.Clients.Cex.Trades.{activities_of}
use wealthfolio_connect_self.Clients.Cex.Legs.{IsPaired, resolved_twice, activities_of-Paired}

-- The case tables for texts that are in upper case already.
abbrev upper_only : Unicode
upper_only = record { lower = λ c. c; upper = λ c. c }

abbrev whole : Floats ℕ
whole = record {
  zero = 0;
  one = 1;
  add = λ a b. a + b;
  mul = λ a b. a * b;
  div = λ a b. a / b;
  equal = λ a b. a == b;
  less = λ a b. ltb a b;
}

abbrev fill : Trade ℕ
fill = record {
  id = "t1";
  symbol = "BTC-USDT";
  base_asset = "";
  quote_asset = "";
  side = "BUY";
  price = 50000;
  quantity = 2;
  fee = 0;
  fee_asset = "";
  note = "";
  timestamp = 5;
}

activities_of-Paired_example :
    IsPaired (activities_of upper_only whole none "okx-spot" "okx" (fill ∷ []))
    × (map
          (λ a. a.source_group_id)
          (activities_of upper_only whole none "okx-spot" "okx" (fill ∷ []))
        ≡ resolved_twice upper_only whole (fill ∷ []))
activities_of-Paired_example =
    activities_of-Paired upper_only whole none "okx-spot" "okx" (fill ∷ [])

-- A concatenated pair whose quote asset is not listed may be split at a listed suffix of it.
split_pair_unlisted : split_pair upper_only "BTCFDUSD" ≡ some ("BTCFD", "USD")
unfolding split_pair upper_trimmed trim_space trim_left trim_right is_space map_text split_dash
    remove_dashes strip_first strip_suffix
split_pair_unlisted = refl
