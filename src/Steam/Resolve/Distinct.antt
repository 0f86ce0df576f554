-- ===== src/Steam/Resolve/Distinct.antt =====
-- `consumed` and `consumedTx` of `resolve`, internal/infrastructure/clients/steam/reconcile.go: what
-- is taken once is not taken again by the paths that test them.
use wealthfolio_connect_self.Prelude.{
  ℕ, String, Bool, true, false, Option, none, some, List, [], ◌∷◌, ◌≡◌, refl, inl, inr, All, str_eq,
  arith, eq_iff, if◌then◌else◌, Option-cases,
}
use wealthfolio_connect_self.Prelude.Map.{Map}
use wealthfolio_connect_self.Prelude.Search.{find_first_sound}
use wealthfolio_connect_self.Steam.Model.{
  HistoryEvent, InventoryItem, MarketTransaction, TradeRecord, Resolution, SteamFloats,
  match_history_market, match_attributes_only,
}
use wealthfolio_connect_self.Steam.Match.{contains, match_attributes, attributes_fit}
use wealthfolio_connect_self.Steam.Match.Pairing.{match_market_pair_sound}
use wealthfolio_connect_self.Steam.Resolve.{
  Progress, unresolved, apply_event, take_event, take_trade, take_pair, resolve_item, resolve_items,
  resolve,
}
use wealthfolio_connect_self.Steam.Resolve.Outcome.{Ground, start, resolve_item-Ground}

-- Every text stands once.
abbrev pub IsDistinct : List String → Type 0
IsDistinct [] = Unit
IsDistinct (id ∷ ids) = (contains id ids ≡ false) × IsDistinct ids

contains-apart :
    (id : String) (set ids : List String)
    → contains id set ≡ true
    → All (λ x. contains x set ≡ false) ids
    → contains id ids ≡ false
unfolding contains
contains-apart id set [] h k = refl
contains-apart id set (x ∷ ids) h k =
    let later = contains-apart id set ids h k.1 in ground (arith, h, k.0, later, eq_iff x id)

All-outside :
    (small large : List String)
    → ((id : String) → contains id small ≡ true → contains id large ≡ true)
    → (ids : List String) → All (λ x. contains x large ≡ false) ids
    → All (λ x. contains x small ≡ false) ids
All-outside small large within [] h = tt
All-outside small large within (x ∷ ids) h =
    (ground (arith, within x, h.0), All-outside small large within ids h.1)

-- The second list, or the first.
abbrev pub side : Bool → List String → List String → List String
side true c t = t
side false c t = c

abbrev pub with_reference : Option String → List String → List String
with_reference none ids = ids
with_reference (some id) ids = id ∷ ids

module _ {F : Type 0} where
  -- The purchase that a resolution names, or the event that it names for its attributes alone.
  unfoldable pub attached : Bool → Resolution F → Option String
  attached true r = if str_eq r.match_method match_history_market then some r.reference else none
  attached false r = if str_eq r.match_method match_attributes_only then some r.reference else none

  -- `consumedTx` or `consumed`.
  abbrev pub set_of : Bool → Progress F → List String
  set_of market p = side market p.consumed p.consumed_tx

  unfoldable pub references : Bool → List (Resolution F) → List String
  references market [] = []
  references market (r ∷ rs) = with_reference (attached market r) (references market rs)

  abbrev IsFresh : Bool → Progress F → Progress F → Option String → Type 0
  IsFresh market p q none = Unit
  IsFresh market p q (some id) =
      (contains id (set_of market p) ≡ false) × (contains id (set_of market q) ≡ true)

  -- One asset only adds to the sets, and what it takes is added to them.
  record IsStep (market : Bool) (p q : Progress F) : Type 0 where
    grows :
        (id : String) → contains id (set_of market p) ≡ true → contains id (set_of market q) ≡ true
    fresh : IsFresh market p q (attached market q.resolution)

  module _ (floats : SteamFloats F) (text_less : String → String → Bool)
      (before : Option (List String)) (events : List HistoryEvent)
      (market : Map (MarketTransaction F)) (trades : List TradeRecord) (now : ℕ) where
    resolve_item-IsStep :
        (by_market : Bool) (it : InventoryItem) (c t : List String)
        → IsStep by_market
            (start floats text_less before events market trades now it c t)
            (resolve_item floats text_less before events market trades now it c t)
    unfolding attached take_event take_trade take_pair apply_event unresolved contains
        match_attributes attributes_fit
    resolve_item-IsStep true it c t =
        elim (resolve_item-Ground floats text_less before events market trades now it c t) [
          | Ground.snapshot ev _ _ is ↦ rw is (record { grows = λ id h. h; fresh = tt })
          | Ground.trade tr _ is ↦ rw is (record { grows = λ id h. h; fresh = tt })
          | Ground.pair ev tx found is ↦
              let free = (match_market_pair_sound text_less events market c t it ev tx found).1 in
              rw is (record {
                grows = λ id h. ground (arith, h);
                fresh = (free, ground (arith, eq_iff tx.external_id tx.external_id));
              })
          | Ground.attributes ev _ is ↦ rw is (record { grows = λ id h. h; fresh = tt })
          | Ground.nothing is ↦ rw is (record { grows = λ id h. h; fresh = tt })
        ]
    resolve_item-IsStep false it c t =
        elim (resolve_item-Ground floats text_less before events market trades now it c t) [
          | Ground.snapshot ev _ _ is ↦
              rw is (record { grows = λ id h. ground (arith, h); fresh = tt })
          | Ground.trade tr _ is ↦ rw is (record { grows = λ id h. h; fresh = tt })
          | Ground.pair ev tx _ is ↦
              rw is (record { grows = λ id h. ground (arith, h); fresh = tt })
          | Ground.attributes ev found is ↦
              let (_, fit) = find_first_sound (attributes_fit c it now) events ev found in
              rw is (record {
                grows = λ id h. ground (arith, h);
                fresh = (ground (arith, fit), ground (arith, eq_iff ev.external_id ev.external_id));
              })
          | Ground.nothing is ↦ rw is (record { grows = λ id h. h; fresh = tt })
        ]

    -- The references of the assets from here on: apart from what is taken, and from each other.
    IsApart : Bool → List String → List (Resolution F) → Type 0
    IsApart by_market set rs =
        All (λ id. contains id set ≡ false) (references by_market rs)
        × IsDistinct (references by_market rs)

    IsApart-cons :
        (by_market : Bool) (p q : Progress F) (rs : List (Resolution F))
        → IsStep by_market p q
        → IsApart by_market (set_of by_market q) rs
        → IsApart by_market (set_of by_market p) (q.resolution ∷ rs)
    unfolding IsApart references
    IsApart-cons by_market p q rs step (outside, distinct) =
        let refs = references by_market rs in
        let outside' =
          All-outside (set_of by_market p) (set_of by_market q) step.grows refs outside in
        elim (Option-cases (attached by_market q.resolution)) [
          | inl nothing ↦ rw nothing (outside', distinct)
          | inr (id, taken) ↦
              let fresh : IsFresh by_market p q (some id) = rw taken at step.fresh in
              rw taken (
                (fresh.0, outside'),
                (contains-apart id (set_of by_market q) refs fresh.1 outside, distinct),
              )
        ]

    resolve_items-IsApart :
        (by_market : Bool) (owned : List InventoryItem) (c t : List String)
        → IsApart by_market
            (side by_market c t)
            (resolve_items floats text_less before events market trades now owned c t).0
    unfolding resolve_items IsApart references
    resolve_items-IsApart by_market [] c t = (tt, tt)
    resolve_items-IsApart by_market (it ∷ its) c t =
        let p = resolve_item floats text_less before events market trades now it c t in
        IsApart-cons by_market (start floats text_less before events market trades now it c t) p
          (resolve_items floats text_less before events market trades now its p.consumed
            p.consumed_tx).0
          (resolve_item-IsStep by_market it c t)
          (resolve_items-IsApart by_market its p.consumed p.consumed_tx)

    -- No purchase is the cost of two assets, and no event is attached to two assets for its
    -- attributes alone.
    pub resolve-IsDistinct :
        (by_market : Bool) (owned : List InventoryItem)
        → IsDistinct (
            references by_market (resolve floats text_less before events market trades now owned).0)
    unfolding resolve IsApart
    resolve-IsDistinct by_market owned = (resolve_items-IsApart by_market owned [] []).1
