-- ===== src/Persistence/Activities.antt =====
-- `activityRepo` of internal/infrastructure/persistence/activities.go: what `UpsertBatch` and `Delete`
-- ask of the database.
pub mod Review
pub mod Rows
pub mod Chunks
pub mod Batch
pub mod Listing
use mathlib.Core.List.{◌++◌}
use wealthfolio_connect_self.Prelude.{
  ℕ, zero, suc, ◌+◌, ◌-◌, ◌*◌, String, Bool, true, false, not, Option, none, some, List, [], ◌∷◌,
  map, ltb, str_eq, length, take, drop, is_empty, if◌then◌else◌,
}
use wealthfolio_connect_self.Prelude.Map.{Map, lookup, insert}
use wealthfolio_connect_self.Domain.Brokerage.{Activity}
use wealthfolio_connect_self.Domain.Error.{
  Error, Fetched, ok, failed, Action, done, wrap, wrapping, ◌>>◌,
}
use wealthfolio_connect_self.Persistence.ActivityModel.{ActivityPo, no_row}
use wealthfolio_connect_self.Persistence.ActivityModel.Convert.{activity_from_domain}

-- The calls of GORM on the table of the activities: the rows of an account with one of some
-- fingerprints, in the order of their source records, as pairs of fingerprint and source record; an
-- INSERT that updates the conflict columns of rows that are there; a DELETE; a transaction.
pub record ActivityTable (F D : Type 0) : Type 0 where
  pub with_fingerprints : String → List String → D → Fetched (List (String × String))
  pub create : List (ActivityPo F) → Action D
  pub delete : String → List String → Action D
  pub transaction : Action D → Action D

abbrev pub activity_upsert_chunk_size : ℕ
activity_upsert_chunk_size = 500

-- The identities of the rows that are stored: a later row overwrites an earlier one.
unfoldable pub stored_identities : List (String × String) → Map String → Map String
stored_identities [] known = known
stored_identities ((fingerprint, id) ∷ existing) known =
    stored_identities existing (insert fingerprint id known)

module _ {F : Type 0} where
  unfoldable pub apply_fingerprint_identity : Activity F → Map String → Activity F × Map String
  apply_fingerprint_identity item known =
      if str_eq item.source_fingerprint ""
      then (item, known)
      else elim (lookup item.source_fingerprint known) [
        | none ↦ (item, insert item.source_fingerprint item.source_record_id known)
        | some prior ↦
            if not (str_eq prior item.source_record_id)
            then (record item { needs_review = true }, known)
            else (item, known)
      ]

  unfoldable pub fingerprints_of : List (Activity F) → List String
  fingerprints_of [] = []
  fingerprints_of (it ∷ its) =
      let rest = fingerprints_of its in
      if not (str_eq it.source_fingerprint "") then it.source_fingerprint ∷ rest else rest

  abbrev pub is_new : Option (ActivityPo F) → Bool
  is_new none = true
  is_new (some _) = false

  abbrev pub row_or_zero : F → Option (ActivityPo F) → ActivityPo F
  row_or_zero zero_float none = no_row zero_float
  row_or_zero zero_float (some row) = row

module _ {F : Type 0} (zero_float : F) where
  -- The loop that fills `order` and `bySourceRecord`.
  unfoldable pub collect :
      String
      → Map String
      → List String
      → Map (ActivityPo F)
      → List (Activity F)
      → List String × Map (ActivityPo F)
  collect account_id known order by_source_record [] = (order, by_source_record)
  collect account_id known order by_source_record (it ∷ its) =
      let (it', known') = apply_fingerprint_identity it known in
      collect account_id known'
        (if is_new (lookup it.source_record_id by_source_record)
          then order ++ it.source_record_id ∷ []
          else order)
        (insert it.source_record_id (activity_from_domain zero_float account_id it')
          by_source_record)
        its

  -- The rows that are written, in order.
  unfoldable pub rows_of : String → Map String → List (Activity F) → List (ActivityPo F)
  rows_of account_id known items =
      let (order, by_source_record) = collect account_id known [] [] items in
      map (λ id. row_or_zero zero_float (lookup id by_source_record)) order

module _ {ℓ} {A : Type ℓ} where
  -- `for start := 0; start < len(pos); start += activityUpsertChunkSize`, the chunk of each turn. A
  -- turn moves `start` on, so `length pos` is fuel enough.
  unfoldable pub chunks_of : ℕ → List A → ℕ → List (List A)
  chunks_of zero rows start = []
  chunks_of (suc fuel) rows start =
      let rest = chunks_of fuel rows (start + activity_upsert_chunk_size) in
      let end =
        if ltb (length rows) (start + activity_upsert_chunk_size)
        then length rows
        else start + activity_upsert_chunk_size in
      if ltb start (length rows) then take (end - start) (drop start rows) ∷ rest else []

module _ {F D : Type 0} (zero_float : F) (db : ActivityTable F D) where
  unfoldable pub create_all : List (List (ActivityPo F)) → Action D
  create_all [] = done
  create_all (chunk ∷ chunks) = db.create chunk >> create_all chunks

  unfoldable pub known_identities : String → List (Activity F) → D → Fetched (Map String)
  known_identities account_id items d =
      let fingerprints = fingerprints_of items in
      if ltb 0 (length fingerprints)
      then elim (db.with_fingerprints account_id fingerprints d) [
        | ok existing ↦ ok (stored_identities existing [])
        | failed e ↦ failed e
      ]
      else ok []

  unfoldable pub upsert_batch : String → List (Activity F) → Action D
  upsert_batch account_id items d =
      if is_empty items then (none, d) else elim (known_identities account_id items d) [
        | failed e ↦ (wrap "activity fingerprint lookup" (some e), d)
        | ok known ↦
            let rows = rows_of zero_float account_id known items in
            wrapping "activity upsert"
              (db.transaction (create_all (chunks_of (length rows) rows 0))) d
      ]

  unfoldable pub delete_records : String → List String → Action D
  delete_records account_id source_record_ids d =
      if is_empty source_record_ids
      then (none, d)
      else wrapping "activity delete" (db.delete account_id source_record_ids) d
