-- ===== src/Steam/Tests/Matching.antt =====
-- The evidence of three assets: a trade, a purchase, and a second case with none.
use mathlib.Core.List.{mem-cons_self}
use wealthfolio_connect_self.Prelude.{ℕ, ◌+◌, ◌*◌, ◌≤◌, true, some, [], ◌∷◌, map, ◌≡◌, ◌⊎◌, refl}
use wealthfolio_connect_self.Prelude.Map.{values}
use wealthfolio_connect_self.Prelude.Search.{find_first, keep}
use wealthfolio_connect_self.Prelude.Sort.{insert_sorted, sort_slice}
use wealthfolio_connect_self.Prelude.Time.{hour, max_duration}
use wealthfolio_connect_self.Steam.Model.{HistoryEvent, MarketTransaction}
use wealthfolio_connect_self.Steam.Match.{
  contains, is_acquisition_kind, acquisition_for_kind, events_of, event_fits, match_event, echoes,
  match_new_asset_id, pairs_event, pairs_transaction, gap_of, abs_duration, unconsumed, nearer,
  scan_transactions, scan_events, match_market_pair, event_before, transaction_before,
  attributes_fit, match_attributes,
}
use wealthfolio_connect_self.Steam.Match.Pairing.{distance, match_market_pair-nearest}
use wealthfolio_connect_self.Steam.Match.Gap.{match_market_pair-gap}
use wealthfolio_connect_self.Steam.Resolve.{
  unresolved, apply_event, take_event, take_trade, take_pair, snapshot_path, trade_path,
  market_path, attribute_path, resolve_item, resolve_items, resolve,
}
use wealthfolio_connect_self.Steam.Resolve.Grounds.{AllGrounded, resolve-AllGrounded}
use wealthfolio_connect_self.Steam.Resolve.Distinct.{IsDistinct, references, resolve-IsDistinct}
use wealthfolio_connect_self.Steam.Tests.{
  by_text, whole_steam, owned, case, events, case_bought, purchases, purchase, trades,
}

confidences :
    map
      (λ r. r.match_confidence)
      (resolve whole_steam by_text (some []) events purchases trades (1020 * hour) owned).0
    ≡ "exact" ∷ "high" ∷ "unresolved" ∷ []
unfolding resolve resolve_items resolve_item snapshot_path trade_path market_path attribute_path
    take_event take_trade take_pair unresolved apply_event match_event events_of event_fits
    match_new_asset_id match_market_pair match_attributes attributes_fit find_first keep sort_slice
    insert_sorted event_before transaction_before unconsumed values scan_events scan_transactions
    nearer pairs_event pairs_transaction gap_of abs_duration contains is_acquisition_kind
    acquisition_for_kind echoes
confidences = refl

resolve-AllGrounded_example :
    AllGrounded whole_steam by_text
      (some [])
      events
      purchases
      trades
      (1020 * hour)
      owned
      (resolve whole_steam by_text (some []) events purchases trades (1020 * hour) owned).0
resolve-AllGrounded_example =
    resolve-AllGrounded whole_steam by_text (some []) events purchases trades (1020 * hour) owned

resolve-IsDistinct_example : IsDistinct (
    references true
      (resolve whole_steam by_text (some []) events purchases trades (1020 * hour) owned).0)
resolve-IsDistinct_example =
    resolve-IsDistinct whole_steam by_text (some []) events purchases trades (1020 * hour) true
      owned

match_market_pair-nearest_example :
    (e : HistoryEvent) × (t : MarketTransaction ℕ) × (match_market_pair by_text
        (case_bought ∷ [])
        purchases
        []
        []
        (case "a2")
      ≡ some (e, t))
    × ((distance e.timestamp t.timestamp ≤ distance case_bought.timestamp purchase.timestamp)
        ⊎ (e.timestamp + (max_duration + 1) ≤ t.timestamp))
unfolding contains pairs_event is_acquisition_kind pairs_transaction gap_of abs_duration values
match_market_pair-nearest_example =
    match_market_pair-nearest by_text (case_bought ∷ []) purchases [] [] (case "a2") case_bought
      purchase
      (record {
        from_events = mem-cons_self;
        from_transactions = mem-cons_self;
        offered = record { event = refl; transaction = refl; within = refl };
      })
      refl

match_market_pair-gap_example :
    ((case_bought.timestamp ≤ purchase.timestamp + 24 * hour)
      × (purchase.timestamp ≤ case_bought.timestamp + 24 * hour))
    ⊎ (case_bought.timestamp + (max_duration + 1) ≤ purchase.timestamp)
unfolding match_market_pair find_first keep sort_slice insert_sorted event_before transaction_before
    unconsumed values scan_events scan_transactions nearer pairs_event pairs_transaction gap_of
    abs_duration contains is_acquisition_kind
match_market_pair-gap_example =
    match_market_pair-gap by_text events purchases [] [] (case "a2") case_bought purchase refl

-- An event whose date was not parsed is closer than any other: the purchase goes to it.
undated_wins :
    map
      (λ r. r.match_confidence)
      (resolve whole_steam by_text
        (some [])
        (record case_bought { timestamp = 0 } ∷ [])
        (("m1", record purchase { timestamp = max_duration + 1 }) ∷ [])
        trades
        (max_duration + 1)
        (case "a2" ∷ [])).0
    ≡ "high" ∷ []
unfolding resolve resolve_items resolve_item snapshot_path trade_path market_path attribute_path
    take_event take_trade take_pair unresolved apply_event match_event events_of event_fits
    match_new_asset_id match_market_pair match_attributes attributes_fit find_first keep sort_slice
    insert_sorted event_before transaction_before unconsumed values scan_events scan_transactions
    nearer pairs_event pairs_transaction gap_of abs_duration contains is_acquisition_kind
    acquisition_for_kind echoes
undated_wins = refl

-- The purchase of the second case, which names its asset, is attached to the first one by its
-- attributes, and to the second by its identifier.
attached_twice :
    map
      (λ r. r.reference)
      (resolve whole_steam by_text
        (some ("a2" ∷ []))
        (record case_bought { asset_id = "a3" } ∷ [])
        []
        trades
        (1020 * hour)
        (case "a2" ∷ case "a3" ∷ [])).0
    ≡ "h2" ∷ "h2" ∷ []
unfolding resolve resolve_items resolve_item snapshot_path trade_path market_path attribute_path
    take_event take_trade take_pair unresolved apply_event match_event events_of event_fits
    match_new_asset_id match_market_pair match_attributes attributes_fit find_first keep sort_slice
    insert_sorted event_before transaction_before unconsumed values scan_events scan_transactions
    nearer pairs_event pairs_transaction gap_of abs_duration contains is_acquisition_kind
    acquisition_for_kind echoes
attached_twice = refl
