-- ===== src/Persistence/Activities/Rows.antt =====
-- The rows of a batch, of internal/infrastructure/persistence/activities.go.
use mathlib.Core.List.{◌++◌}
use wealthfolio_connect_self.Prelude.{
  String, ◌≡◌, refl, sym, ◌∙◌, Option, none, some, List, [], ◌∷◌, map, str_eq, if◌then◌else◌, arith,
  eq_iff, All,
}
use wealthfolio_connect_self.Prelude.Map.{Map, lookup, insert, lookup-insert, IsMap, insert-IsMap}
use wealthfolio_connect_self.Domain.Brokerage.{Activity}
use wealthfolio_connect_self.Persistence.ActivityModel.{ActivityPo}
use wealthfolio_connect_self.Persistence.ActivityModel.Convert.{activity_from_domain}
use wealthfolio_connect_self.Persistence.Activities.{
  apply_fingerprint_identity, is_new, row_or_zero, collect, rows_of,
}
use wealthfolio_connect_self.Persistence.Activities.Review.{
  reconciled, canonical, flagged, reconciled-canonical,
}

module _ {V : Type 0} where
  unfoldable keys : Map V → List String
  keys [] = []
  keys ((key, held) ∷ m) = key ∷ keys m

  unfoldable values : Map V → List V
  values [] = []
  values ((key, held) ∷ m) = held ∷ values m

module _ {F : Type 0} (zero_float : F) where
  keys-insert :
      (key : String) (row : ActivityPo F) (m : Map (ActivityPo F))
      → keys (insert key row m) ≡ (if is_new (lookup key m) then keys m ++ key ∷ [] else keys m)
  unfolding keys insert lookup
  keys-insert key row [] = refl
  keys-insert key row ((at, held) ∷ m) = ground (arith, keys-insert key row m, eq_iff at key)

  -- An entry in front that no key names is not met.
  map-lookup_front :
      (at : String) (held : ActivityPo F) (asked m : Map (ActivityPo F))
      → lookup at asked ≡ none
      → map (λ id. row_or_zero zero_float (lookup id ((at, held) ∷ m))) (keys asked)
        ≡ map (λ id. row_or_zero zero_float (lookup id m)) (keys asked)
  unfolding keys lookup
  map-lookup_front at held [] m h = refl
  map-lookup_front at held ((key, row) ∷ asked) m h =
      ground (arith, h, map-lookup_front at held asked m, eq_iff at key, eq_iff key at)

  map-lookup-keys :
      (m : Map (ActivityPo F))
      → IsMap m
      → map (λ id. row_or_zero zero_float (lookup id m)) (keys m) ≡ values m
  unfolding keys values lookup
  map-lookup-keys [] h = refl
  map-lookup-keys ((at, held) ∷ m) h =
      ground (arith, map-lookup_front at held m m h.0, map-lookup-keys m h.1, eq_iff at at)

  -- The map that a batch leaves, from the items as the review left them.
  unfoldable filled : String → Map (ActivityPo F) → List (Activity F) → Map (ActivityPo F)
  filled account_id m [] = m
  filled account_id m (it ∷ its) =
      filled account_id
        (insert it.source_record_id (activity_from_domain zero_float account_id it) m) its

  apply-source_record_id :
      (it : Activity F) (known : Map String)
      → (apply_fingerprint_identity it known).0.source_record_id ≡ it.source_record_id
  unfolding apply_fingerprint_identity
  apply-source_record_id it known = ground arith

  collect-filled :
      (account_id : String) (known : Map String) (order : List String) (m : Map (ActivityPo F))
      (items : List (Activity F))
      → order ≡ keys m
      → (collect zero_float account_id known order m items).1
          ≡ filled account_id m (reconciled known items)
        × (collect zero_float account_id known order m items).0
          ≡ keys (filled account_id m (reconciled known items))
  unfolding collect filled reconciled
  collect-filled account_id known order m [] h = (refl, h)
  collect-filled account_id known order m (it ∷ its) h =
      rw (apply-source_record_id it known, filled)
        (collect-filled account_id (apply_fingerprint_identity it known).1
          (if is_new (lookup it.source_record_id m)
            then order ++ it.source_record_id ∷ []
            else order)
          (insert it.source_record_id
            (activity_from_domain zero_float account_id (apply_fingerprint_identity it known).0) m)
          its
          (rw h (
            sym (
              keys-insert it.source_record_id
                (activity_from_domain zero_float account_id (apply_fingerprint_identity it known).0)
                m))))

  -- Every entry stands under the source record of its row, and belongs to the account.
  unfoldable IsKeyed : String → Map (ActivityPo F) → Type 0
  IsKeyed account_id [] = Unit
  IsKeyed account_id ((key, row) ∷ m) =
      (row.source_record_id ≡ key) × (row.account_id ≡ account_id) × IsKeyed account_id m

  insert-IsKeyed :
      (account_id key : String) (row : ActivityPo F) (m : Map (ActivityPo F))
      → row.source_record_id ≡ key
      → row.account_id ≡ account_id
      → IsKeyed account_id m
      → IsKeyed account_id (insert key row m)
  unfolding IsKeyed insert
  insert-IsKeyed account_id key row [] same owned h = (same, owned, tt)
  insert-IsKeyed account_id key row ((at, held) ∷ m) same owned h =
      ground (arith, h, insert-IsKeyed account_id key row m same owned h.2, eq_iff at key)

  filled-Sound :
      (account_id : String) (m : Map (ActivityPo F)) (its : List (Activity F))
      → IsMap m
      → IsKeyed account_id m
      → IsMap (filled account_id m its) × IsKeyed account_id (filled account_id m its)
  unfolding filled activity_from_domain
  filled-Sound account_id m [] h k = (h, k)
  filled-Sound account_id m (it ∷ its) h k =
      let row = activity_from_domain zero_float account_id it in
      filled-Sound account_id (insert it.source_record_id row m) its
        (insert-IsMap it.source_record_id row m h)
        (insert-IsKeyed account_id it.source_record_id row m refl refl k)

-- The row of a batch with a given source record, and what it should be: the row of the last item.
pub find_row : {F : Type 0} → String → List (ActivityPo F) → Option (ActivityPo F)
find_row id [] = none
find_row id (row ∷ rows) = if str_eq row.source_record_id id then some row else find_row id rows

pub last_row :
    {F : Type 0}
    → F
    → String
    → String
    → Option (ActivityPo F)
    → List (Activity F)
    → Option (ActivityPo F)
last_row zero_float account_id id so_far [] = so_far
last_row zero_float account_id id so_far (it ∷ its) =
    last_row zero_float account_id id
      (if str_eq it.source_record_id id
        then some (activity_from_domain zero_float account_id it)
        else so_far)
      its

-- No two rows have the same source record.
pub IsDistinct : {F : Type 0} → List (ActivityPo F) → Type 0
IsDistinct [] = Unit
IsDistinct (row ∷ rows) = (find_row row.source_record_id rows ≡ none) × IsDistinct rows

module _ {F : Type 0} (zero_float : F) (account_id : String) where
  find_row-values :
      (id : String) (m : Map (ActivityPo F))
      → IsKeyed zero_float account_id m
      → find_row id (values m) ≡ lookup id m
  unfolding find_row values lookup IsKeyed
  find_row-values id [] h = refl
  find_row-values id ((key, row) ∷ m) h = ground (arith, h, find_row-values id m h.2, eq_iff key id)

  lookup-filled :
      (id : String) (m : Map (ActivityPo F)) (its : List (Activity F))
      → lookup id (filled zero_float account_id m its)
        ≡ last_row zero_float account_id id (lookup id m) its
  unfolding filled last_row
  lookup-filled id m [] = refl
  lookup-filled id m (it ∷ its) =
      let row = activity_from_domain zero_float account_id it in
      rw (sym (lookup-insert it.source_record_id id row m))
        (lookup-filled id (insert it.source_record_id row m) its)

  values-Distinct :
      (m : Map (ActivityPo F))
      → IsMap m
      → IsKeyed zero_float account_id m
      → IsDistinct (values m) × All (λ row. row.account_id ≡ account_id) (values m)
  unfolding IsDistinct values IsKeyed
  values-Distinct [] h k = (tt, tt)
  values-Distinct ((key, row) ∷ m) h k =
      ground (arith, h, k, values-Distinct m h.1 k.2, find_row-values key m k.2)

  filled_empty-Sound :
      (its : List (Activity F))
      → IsMap (filled zero_float account_id [] its)
        × IsKeyed zero_float account_id (filled zero_float account_id [] its)
  unfolding IsKeyed
  filled_empty-Sound its = filled-Sound zero_float account_id [] its tt tt

  rows_of-values :
      (known : Map String) (items : List (Activity F))
      → rows_of zero_float account_id known items
        ≡ values (filled zero_float account_id [] (reconciled known items))
  unfolding rows_of keys
  rows_of-values known items =
      let collected = collect-filled zero_float account_id known [] [] items refl in
      rw (collected.0, collected.1)
        (map-lookup-keys zero_float (filled zero_float account_id [] (reconciled known items))
          (filled_empty-Sound (reconciled known items)).0)

  -- Whatever a batch holds, the rows that are written have no source record twice and belong to the
  -- account, and the row of each source record is that of the last item with it, flagged for review
  -- if another record stands for its fingerprint; no other rows are written.
  pub rows_of-Faithful :
      (known : Map String) (items : List (Activity F))
      → IsDistinct (rows_of zero_float account_id known items)
        × All (λ row. row.account_id ≡ account_id) (rows_of zero_float account_id known items)
        × ((id : String)
            → find_row id (rows_of zero_float account_id known items)
              ≡ last_row zero_float account_id id none
                  (map (flagged (canonical known items)) items))
  unfolding lookup
  rows_of-Faithful known items =
      let its = reconciled known items in
      let (distinct_keys, keyed) = filled_empty-Sound its in
      let (distinct, owned) =
        values-Distinct (filled zero_float account_id [] its) distinct_keys keyed in
      rw (rows_of-values known items) (
        distinct,
        owned,
        λ id. rw (sym (reconciled-canonical known items)) (
            find_row-values id (filled zero_float account_id [] its) keyed
            ∙ lookup-filled id [] its),
      )
