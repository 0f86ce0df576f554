-- ===== src/Persistence/Activities/Batch.antt =====
-- `UpsertBatch` of internal/infrastructure/persistence/activities.go as a whole.
use wealthfolio_connect_self.Prelude.{
  String, ◌≡◌, ◌≢◌, true, List, [], ◌∷◌, is_some, arith, eq_iff, length, inl, inr,
}
use wealthfolio_connect_self.Prelude.Map.{lookup, insert}
use wealthfolio_connect_self.Domain.Brokerage.{Activity}
use wealthfolio_connect_self.Domain.Error.{Action, Fetched-cases}
use wealthfolio_connect_self.Persistence.Activities.{
  ActivityTable, apply_fingerprint_identity, stored_identities, rows_of, chunks_of, create_all,
  known_identities, upsert_batch,
}
use wealthfolio_connect_self.Persistence.Activities.Review.{reconciled}

-- A transaction that fails is rolled back.
unfoldable pub IsAtomic : {F D : Type 0} → ActivityTable F D → Type 0
IsAtomic {F} {D} db =
    (run : Action D) (d : D)
    → is_some (db.transaction run d).0 ≡ true
    → (db.transaction run d).1 ≡ d

-- If a failed transaction is rolled back, a batch that ends in an error has changed nothing.
pub upsert_batch-Atomic :
    {F D : Type 0} (zero_float : F) (db : ActivityTable F D) (account_id : String)
    (items : List (Activity F)) (d : D)
    → IsAtomic db
    → is_some (upsert_batch zero_float db account_id items d).0 ≡ true
    → (upsert_batch zero_float db account_id items d).1 ≡ d
unfolding upsert_batch IsAtomic
upsert_batch-Atomic zero_float db account_id items d atomic h =
    elim (Fetched-cases (known_identities zero_float db account_id items d)) [
      | inl (known, found) ↦
          let rows = rows_of zero_float account_id known items in
          ground
            (arith, h, found, atomic (create_all zero_float db (chunks_of (length rows) rows 0)) d)
      | inr (e, missed) ↦ ground (arith, h, missed)
    ]

-- When two records have one fingerprint, the first sync flags the second of them, and a sync that
-- finds both stored flags the first and takes the flag back from the second.
pub reconciled_again :
    {F : Type 0} (first second : Activity F)
    → first.source_fingerprint ≢ ""
    → first.source_fingerprint ≡ second.source_fingerprint
    → first.source_record_id ≢ second.source_record_id
    → (reconciled [] (first ∷ second ∷ []) ≡ first ∷ record second { needs_review = true } ∷ [])
      × (reconciled
            (stored_identities
              ((first.source_fingerprint, first.source_record_id)
                ∷ (second.source_fingerprint, second.source_record_id)
                ∷ [])
              [])
            (first ∷ second ∷ [])
          ≡ record first { needs_review = true } ∷ second ∷ [])
unfolding reconciled stored_identities apply_fingerprint_identity lookup insert
reconciled_again first second named twins differ = ground (
  arith,
  named,
  twins,
  differ,
  eq_iff first.source_fingerprint "",
  eq_iff second.source_fingerprint "",
  eq_iff first.source_fingerprint second.source_fingerprint,
  eq_iff second.source_fingerprint second.source_fingerprint,
  eq_iff first.source_fingerprint first.source_fingerprint,
  eq_iff second.source_fingerprint first.source_fingerprint,
  eq_iff first.source_record_id second.source_record_id,
  eq_iff second.source_record_id first.source_record_id,
  eq_iff second.source_record_id second.source_record_id,
)
