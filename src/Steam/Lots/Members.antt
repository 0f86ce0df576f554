-- ===== src/Steam/Lots/Members.antt =====
-- `buildLots` of internal/infrastructure/clients/steam/reconcile.go: which lots there are.
use mathlib.Core.List.{
  Mem, Mem-prop, mem-cons_self, mem-cons_of_mem, not-mem-nil, eq-or-mem_of_mem-cons,
}
use mathlib.Core.List.{◌++◌ as ◌+++◌, append-nil, append_assoc}
use mathlib.Core.Logic.Or
use mathlib.Core.Path.{fun_ext, subst}
use wealthfolio_connect_self.Prelude.{
  ◌≤◌, String, Bool, false, ◌&&◌, none, some, List, [], ◌∷◌, ◌≡◌, refl, sym, ap, ◌∙◌, inl, inr,
  arith, eq_iff, ltb, length, map, str_eq, if◌then◌else◌, Bool-cases,
}
use wealthfolio_connect_self.Prelude.Int.{ℤ, pos, negsuc, ◌+ℤ◌}
use wealthfolio_connect_self.Prelude.Map.{Map, lookup, insert, lookup-insert}
use wealthfolio_connect_self.Prelude.Search.{keep}
use wealthfolio_connect_self.Prelude.Sort.{sort_slice, mem-sort_slice_back}
use wealthfolio_connect_self.Steam.Model.{Resolution, AcquisitionLot}
use wealthfolio_connect_self.Steam.Resolve.Distinct.{IsDistinct}
use wealthfolio_connect_self.Steam.Lots.Once.{build_lots-IsDistinct}
use wealthfolio_connect_self.Steam.Lots.{
  is_pooled, group_at, groups_by_name, total_amount, lot_of, names_of, lots_of, build_lots,
}

add_assoc : (a b c : ℤ) → a +ℤ b +ℤ c ≡ a +ℤ (b +ℤ c)
add_assoc (pos a) (pos b) (pos c) = ground arith
add_assoc (pos a) (pos b) (negsuc c) = ground arith
add_assoc (pos a) (negsuc b) (pos c) = ground arith
add_assoc (pos a) (negsuc b) (negsuc c) = ground arith
add_assoc (negsuc a) (pos b) (pos c) = ground arith
add_assoc (negsuc a) (pos b) (negsuc c) = ground arith
add_assoc (negsuc a) (negsuc b) (pos c) = ground arith
add_assoc (negsuc a) (negsuc b) (negsuc c) = ground arith

add_zero : (a : ℤ) → a +ℤ pos 0 ≡ a
add_zero (pos a) = ground arith
add_zero (negsuc a) = ground arith

zero_add : (a : ℤ) → pos 0 +ℤ a ≡ a
zero_add (pos a) = ground arith
zero_add (negsuc a) = ground arith

module _ {F : Type 0} where
  -- The assets of a name that nothing tells apart, in their order.
  unfoldable pub members : String → List (Resolution F) → List (Resolution F)
  members name = keep (λ r. is_pooled r && str_eq r.asset.market_hash_name name)

  -- The step of the first loop.
  abbrev with_resolution : Resolution F → Map (List (Resolution F)) → Map (List (Resolution F))
  with_resolution r by_name =
      let name = r.asset.market_hash_name in
      if is_pooled r
      then insert name (group_at (lookup name by_name) +++ (r ∷ [])) by_name
      else by_name

  with_resolution-group :
      (r : Resolution F) (by_name : Map (List (Resolution F))) (name : String)
      → group_at (lookup name (with_resolution r by_name))
        ≡ group_at (lookup name by_name) +++ members name (r ∷ [])
  unfolding members keep
  with_resolution-group r by_name name =
      let own = r.asset.market_hash_name in
      let here = group_at (lookup name by_name) in
      let written = group_at (lookup own by_name) +++ (r ∷ []) in
      elim (Bool-cases (is_pooled r)) [
        | inr skipped ↦ rw skipped (sym (append-nil here))
        | inl pooled ↦ elim (Bool-cases (str_eq own name)) [
          | inr other ↦
              let kept : lookup name (insert own written by_name) ≡ lookup name by_name =
                lookup-insert own name written by_name ∙ rw other refl in
              rw (pooled, other) (ap group_at kept ∙ sym (append-nil here))
          | inl equal ↦
              let same : own ≡ name = ground (arith, equal, eq_iff own name) in
              let grown : lookup name (insert own written by_name) ≡ some written =
                lookup-insert own name written by_name ∙ rw equal refl in
              rw (pooled, equal)
                (ap group_at grown ∙ ap (λ n. group_at (lookup n by_name) +++ (r ∷ [])) same)
        ]
      ]

  members-cons :
      (r : Resolution F) (rs : List (Resolution F)) (name : String)
      → members name (r ∷ []) +++ members name rs ≡ members name (r ∷ rs)
  unfolding members keep
  members-cons r rs name = elim (Bool-cases (is_pooled r && str_eq r.asset.market_hash_name name)) [
    | inl good ↦ rw good refl
    | inr bad ↦ rw bad refl
  ]

  groups_by_name-members :
      (rs : List (Resolution F)) (by_name : Map (List (Resolution F))) (name : String)
      → group_at (lookup name (groups_by_name rs by_name))
        ≡ group_at (lookup name by_name) +++ members name rs
  unfolding groups_by_name members keep
  groups_by_name-members [] by_name name = sym (append-nil (group_at (lookup name by_name)))
  groups_by_name-members (r ∷ rs) by_name name =
      groups_by_name-members rs (with_resolution r by_name) name
      ∙ ap (λ g. g +++ members name rs) (with_resolution-group r by_name name)
      ∙ append_assoc (group_at (lookup name by_name)) (members name (r ∷ [])) (members name rs)
      ∙ ap (λ g. group_at (lookup name by_name) +++ g) (members-cons r rs name)

  -- A name with a group is one of the names of the map.
  mem-names_of :
      (name : String) (by_name : Map (List (Resolution F)))
      → (length (group_at (lookup name by_name)) ≡ 0 → ⊥)
      → Mem name (names_of by_name)
  unfolding names_of lookup
  mem-names_of name [] some_there = absurd (some_there refl)
  mem-names_of name ((at, group) ∷ rest) some_there = elim (Bool-cases (str_eq at name)) [
    | inl equal ↦
        let same : at ≡ name = ground (arith, equal, eq_iff at name) in rw same mem-cons_self
    | inr other ↦ mem-cons_of_mem at (mem-names_of name rest (rw other at some_there))
  ]

  mem-lots_of :
      (by_name : Map (List (Resolution F))) (names : List String) (name : String)
      → Mem name names
      → 2 ≤ length (group_at (lookup name by_name))
      → Mem (lot_of name (group_at (lookup name by_name))) (lots_of by_name names)
  unfolding lots_of
  mem-lots_of by_name [] name m enough = absurd (not-mem-nil m)
  mem-lots_of by_name (n ∷ names) name m enough =
      Or.elim Mem-prop (eq-or-mem_of_mem-cons m)
        (λ same.
          let plenty : ltb (length (group_at (lookup n by_name))) 2 ≡ false =
            rw (sym same) (ground (arith, enough)) in
          rw same (rw plenty mem-cons_self))
        (λ inside.
          let later = mem-lots_of by_name names name inside enough in
          elim (Bool-cases (ltb (length (group_at (lookup n by_name))) 2)) [
            | inl few ↦ rw few later
            | inr plenty ↦
                rw plenty (mem-cons_of_mem (lot_of n (group_at (lookup n by_name))) later)
          ])

  -- The sum of the amounts.
  unfoldable pub amounts : List (Resolution F) → ℤ
  amounts [] = pos 0
  amounts (r ∷ rs) = r.asset.amount +ℤ amounts rs

  total_amount-amounts :
      (qty : ℤ) (rs : List (Resolution F)) → total_amount qty rs ≡ qty +ℤ amounts rs
  unfolding total_amount amounts
  total_amount-amounts qty [] = sym (add_zero qty)
  total_amount-amounts qty (r ∷ rs) =
      total_amount-amounts (qty +ℤ r.asset.amount) rs ∙ add_assoc qty r.asset.amount (amounts rs)

  -- A lot of these assets: with all of their amounts, and no date or cost.
  pub record IsLotOf (name : String) (group : List (Resolution F)) (lot : AcquisitionLot F)
      : Type 0 where
    pub named : lot.market_hash_name ≡ name
    pub whole : lot.quantity ≡ amounts group
    pub undated : lot.acquired_at ≡ 0
    pub uncosted : (lot.unit_cost ≡ none) × (lot.cost_currency ≡ "")
    pub open_still : lot.source ≡ "unresolved"

  lot_of-IsLotOf :
      (name : String) (group : List (Resolution F)) → IsLotOf name group (lot_of name group)
  unfolding lot_of
  lot_of-IsLotOf name group = record {
    named = refl;
    whole = total_amount-amounts (pos 0) group ∙ zero_add (amounts group);
    undated = refl;
    uncosted = (refl, refl);
    open_still = refl;
  }

  -- Every lot is that of some name.
  pub data IsLot (group : String → List (Resolution F)) : List (AcquisitionLot F) → Type 0 where
    no_lots : IsLot group []
    one_more :
        (name : String) (lot : AcquisitionLot F) (lots : List (AcquisitionLot F))
        → 2 ≤ length (group name)
        → IsLotOf name (group name) lot
        → IsLot group lots
        → IsLot group (lot ∷ lots)

  lots_of-IsLot :
      (by_name : Map (List (Resolution F))) (names : List String)
      → IsLot (λ name. group_at (lookup name by_name)) (lots_of by_name names)
  unfolding lots_of
  lots_of-IsLot by_name [] = no_lots
  lots_of-IsLot by_name (n ∷ names) =
      let group = group_at (lookup n by_name) in
      elim (Bool-cases (ltb (length group) 2)) [
        | inl few ↦ rw few (lots_of-IsLot by_name names)
        | inr plenty ↦ rw plenty (
            one_more n (lot_of n group) (lots_of by_name names) (ground (arith, plenty))
              (lot_of-IsLotOf n group) (lots_of-IsLot by_name names))
      ]

  group-members :
      (rs : List (Resolution F)) (name : String)
      → group_at (lookup name (groups_by_name rs [])) ≡ members name rs
  unfolding lookup
  group-members rs name = groups_by_name-members rs [] name

  groups-members :
      (rs : List (Resolution F))
      → ◌≡◌ {A = String → List (Resolution F)}
          (λ name. group_at (lookup name (groups_by_name rs [])))
          (λ name. members name rs)
  groups-members rs = fun_ext (group-members rs)

  -- The lots are just those of the names with two assets at least that have neither an exact nor a
  -- high match: each has the sum of the amounts of all these assets of its name, no date and no
  -- cost, and every such name has just one.
  pub build_lots-IsLot :
      (text_less : String → String → Bool) (rs : List (Resolution F))
      → IsLot (λ name. members name rs) (build_lots text_less rs)
        × ((name : String)
            → 2 ≤ length (members name rs)
            → (lot : AcquisitionLot F) × Mem lot (build_lots text_less rs)
              × IsLotOf name (members name rs) lot)
        × IsDistinct (map (λ lot. lot.market_hash_name) (build_lots text_less rs))
  unfolding build_lots
  build_lots-IsLot text_less rs =
      let by_name = groups_by_name rs [] in
      let names = sort_slice text_less (names_of by_name) in
      (
        subst (λ group. IsLot group (lots_of by_name names)) (groups-members rs)
            (lots_of-IsLot by_name names),
        λ name enough.
            let enough' : 2 ≤ length (group_at (lookup name by_name)) =
              rw (group-members rs name) enough in
            let named = mem-names_of name by_name (λ empty. ground (arith, empty, enough')) in
            let there : Mem (lot_of name (members name rs)) (lots_of by_name names) =
              rw (group-members rs name) at (
                mem-lots_of by_name names name
                  (mem-sort_slice_back text_less name (names_of by_name) named) enough') in
            (lot_of name (members name rs), there, lot_of-IsLotOf name (members name rs)),
        build_lots-IsDistinct text_less rs,
      )
