-- ===== src/Steam/Lots/Once.antt =====
-- `buildLots` of internal/infrastructure/clients/steam/reconcile.go: no name has two lots.
use mathlib.Core.List.{◌++◌ as ◌+++◌}
use wealthfolio_connect_self.Prelude.{
  String, Bool, false, ◌||◌, none, List, [], ◌∷◌, ◌≡◌, refl, inl, inr, arith, eq_iff, ltb, length,
  str_eq, map, Bool-cases,
}
use wealthfolio_connect_self.Prelude.Map.{Map, lookup, insert, IsMap, insert-IsMap}
use wealthfolio_connect_self.Prelude.Sort.{sort_slice, insert_sorted}
use wealthfolio_connect_self.Steam.Model.{Resolution}
use wealthfolio_connect_self.Steam.Match.{contains}
use wealthfolio_connect_self.Steam.Resolve.Distinct.{IsDistinct}
use wealthfolio_connect_self.Steam.Lots.{
  is_pooled, group_at, groups_by_name, lot_of, names_of, lots_of, build_lots,
}

module _ (less : String → String → Bool) where
  contains-insert_sorted :
      (id x : String) (xs : List String)
      → contains id (insert_sorted less x xs) ≡ (str_eq x id || contains id xs)
  unfolding contains insert_sorted
  contains-insert_sorted id x [] = refl
  contains-insert_sorted id x (y ∷ ys) = ground (arith, contains-insert_sorted id x ys)

  contains-sort_slice :
      (id : String) (xs : List String) → contains id (sort_slice less xs) ≡ contains id xs
  unfolding contains sort_slice
  contains-sort_slice id [] = refl
  contains-sort_slice id (x ∷ xs) =
      ground (arith, contains-insert_sorted id x (sort_slice less xs), contains-sort_slice id xs)

  insert_sorted-IsDistinct :
      (x : String) (xs : List String)
      → contains x xs ≡ false
      → IsDistinct xs
      → IsDistinct (insert_sorted less x xs)
  unfolding contains insert_sorted
  insert_sorted-IsDistinct x [] new h = (refl, tt)
  insert_sorted-IsDistinct x (y ∷ ys) new h = elim (Bool-cases (less y x)) [
    | inr before ↦ rw before (new, h)
    | inl later ↦ rw later (
      ground (arith, new, h.0, contains-insert_sorted y x ys, eq_iff x y, eq_iff y x),
      insert_sorted-IsDistinct x ys (ground (arith, new)) h.1,
    )
  ]

  sort_slice-IsDistinct : (xs : List String) → IsDistinct xs → IsDistinct (sort_slice less xs)
  unfolding sort_slice
  sort_slice-IsDistinct [] h = tt
  sort_slice-IsDistinct (x ∷ xs) h =
      insert_sorted-IsDistinct x (sort_slice less xs) (rw (contains-sort_slice x xs) h.0)
        (sort_slice-IsDistinct xs h.1)

module _ {F : Type 0} where
  contains-names_of :
      (name : String) (by_name : Map (List (Resolution F)))
      → lookup name by_name ≡ none
      → contains name (names_of by_name) ≡ false
  unfolding contains names_of lookup
  contains-names_of name [] h = refl
  contains-names_of name ((at, group) ∷ rest) h = ground (arith, h, contains-names_of name rest)

  names_of-IsDistinct :
      (by_name : Map (List (Resolution F))) → IsMap by_name → IsDistinct (names_of by_name)
  unfolding names_of
  names_of-IsDistinct [] h = tt
  names_of-IsDistinct ((at, group) ∷ rest) h =
      (contains-names_of at rest h.0, names_of-IsDistinct rest h.1)

  groups_by_name-IsMap :
      (rs : List (Resolution F)) (by_name : Map (List (Resolution F)))
      → IsMap by_name
      → IsMap (groups_by_name rs by_name)
  unfolding groups_by_name
  groups_by_name-IsMap [] by_name h = h
  groups_by_name-IsMap (r ∷ rs) by_name h =
      let name = r.asset.market_hash_name in
      elim (Bool-cases (is_pooled r)) [
        | inr skipped ↦ rw skipped (groups_by_name-IsMap rs by_name h)
        | inl pooled ↦ rw pooled (
            groups_by_name-IsMap rs
              (insert name (group_at (lookup name by_name) +++ (r ∷ [])) by_name)
              (insert-IsMap name (group_at (lookup name by_name) +++ (r ∷ [])) by_name h))
      ]

  contains-lots_of :
      (by_name : Map (List (Resolution F))) (names : List String) (id : String)
      → contains id names ≡ false
      → contains id (map (λ lot. lot.market_hash_name) (lots_of by_name names)) ≡ false
  unfolding contains lots_of lot_of
  contains-lots_of by_name [] id h = refl
  contains-lots_of by_name (n ∷ names) id h = ground (arith, h, contains-lots_of by_name names id)

  lots_of-IsDistinct :
      (by_name : Map (List (Resolution F))) (names : List String)
      → IsDistinct names
      → IsDistinct (map (λ lot. lot.market_hash_name) (lots_of by_name names))
  unfolding lots_of lot_of
  lots_of-IsDistinct by_name [] h = tt
  lots_of-IsDistinct by_name (n ∷ names) h =
      elim (Bool-cases (ltb (length (group_at (lookup n by_name))) 2)) [
        | inl few ↦ rw few (lots_of-IsDistinct by_name names h.1)
        | inr plenty ↦
            rw plenty (contains-lots_of by_name names n h.0, lots_of-IsDistinct by_name names h.1)
      ]

  -- No two lots have one name.
  pub build_lots-IsDistinct :
      (text_less : String → String → Bool) (rs : List (Resolution F))
      → IsDistinct (map (λ lot. lot.market_hash_name) (build_lots text_less rs))
  unfolding build_lots
  build_lots-IsDistinct text_less rs =
      let by_name = groups_by_name rs [] in
      lots_of-IsDistinct by_name (sort_slice text_less (names_of by_name)) (
        sort_slice-IsDistinct text_less (names_of by_name)
          (names_of-IsDistinct by_name (groups_by_name-IsMap rs [] tt)))
