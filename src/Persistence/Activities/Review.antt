-- ===== src/Persistence/Activities/Review.antt =====
-- The review flag of a batch, of internal/infrastructure/persistence/activities.go.

use wealthfolio_connect_self.Prelude.{
  String, ◌≡◌, ◌≢◌, refl, Bool, true, false, not, ◌&&◌, Option, none, some, List, [], ◌∷◌, map,
  str_eq, if◌then◌else◌, arith, eq_iff,
}
use wealthfolio_connect_self.Prelude.Map.{Map, lookup, insert, lookup-insert}
use wealthfolio_connect_self.Domain.Brokerage.{Activity}
use wealthfolio_connect_self.Persistence.Activities.{apply_fingerprint_identity}

abbrev pub is_twin : Option String → String → Bool
is_twin none id = false
is_twin (some first) id = not (str_eq first id)

abbrev or_else : Option String → Option String → Option String
or_else none other = other
or_else (some id) other = some id

module _ {F : Type 0} where
  -- The items as the loop of `UpsertBatch` leaves them.
  unfoldable pub reconciled : Map String → List (Activity F) → List (Activity F)
  reconciled known [] = []
  reconciled known (it ∷ its) =
      (apply_fingerprint_identity it known).0
      ∷ reconciled (apply_fingerprint_identity it known).1 its

  -- The record that stands for a fingerprint: the stored one, or the first of the batch.
  unfoldable pub canonical : Map String → List (Activity F) → String → Option String
  canonical known [] fingerprint = lookup fingerprint known
  canonical known (it ∷ its) fingerprint = elim (lookup fingerprint known) [
    | some id ↦ some id
    | none ↦
        if str_eq it.source_fingerprint fingerprint
        then some it.source_record_id
        else canonical known its fingerprint
  ]

  -- An item is flagged when another record stands for its fingerprint.
  unfoldable pub flagged : (String → Option String) → Activity F → Activity F
  flagged stands it =
      if not (str_eq it.source_fingerprint "")
        && is_twin (stands it.source_fingerprint) it.source_record_id
      then record it { needs_review = true }
      else it

  canonical-known :
      (known : Map String) (its : List (Activity F)) (fingerprint : String)
      → canonical known its fingerprint
        ≡ or_else (lookup fingerprint known) (canonical known its fingerprint)
  unfolding canonical
  canonical-known known [] fingerprint = ground arith
  canonical-known known (it ∷ its) fingerprint = ground arith

  canonical-insert :
      (known : Map String) (its : List (Activity F)) (key id fingerprint : String)
      → lookup key known ≡ none
      → canonical (insert key id known) its fingerprint
        ≡ (if str_eq key fingerprint then some id else canonical known its fingerprint)
  unfolding canonical
  canonical-insert known [] key id fingerprint h =
      ground (arith, lookup-insert key fingerprint id known, h)
  canonical-insert known (it ∷ its) key id fingerprint h = ground (
    arith,
    lookup-insert key fingerprint id known,
    h,
    canonical-insert known its key id fingerprint h,
    eq_iff key fingerprint,
  )

  canonical-apply :
      (known : Map String) (it : Activity F) (its : List (Activity F)) (fingerprint : String)
      → fingerprint ≢ ""
      → canonical (apply_fingerprint_identity it known).1 its fingerprint
        ≡ canonical known (it ∷ its) fingerprint
  unfolding canonical apply_fingerprint_identity
  canonical-apply known it its fingerprint named = ground (
    arith,
    named,
    eq_iff it.source_fingerprint "",
    eq_iff it.source_fingerprint fingerprint,
    canonical-insert known its it.source_fingerprint it.source_record_id fingerprint,
    canonical-known known its fingerprint,
  )

  flagged-cong :
      (before after : String → Option String) (its : List (Activity F))
      → ((fingerprint : String) → fingerprint ≢ "" → before fingerprint ≡ after fingerprint)
      → map (flagged before) its ≡ map (flagged after) its
  unfolding flagged
  flagged-cong before after [] same = refl
  flagged-cong before after (it ∷ its) same = ground (
    arith,
    same it.source_fingerprint,
    flagged-cong before after its same,
    eq_iff it.source_fingerprint "",
  )

  apply-flagged :
      (known : Map String) (it : Activity F) (its : List (Activity F))
      → (apply_fingerprint_identity it known).0 ≡ flagged (canonical known (it ∷ its)) it
  unfolding apply_fingerprint_identity flagged canonical
  apply-flagged known it its = ground (
    arith,
    eq_iff it.source_fingerprint "",
    eq_iff it.source_fingerprint it.source_fingerprint,
    eq_iff it.source_record_id it.source_record_id,
  )

  -- Beyond the flags that the items come with, an item of a batch is flagged for review exactly if
  -- another record stands for its fingerprint: the stored one, or else the first of the batch that
  -- has it. Nothing else of an item changes.
  pub reconciled-canonical :
      (known : Map String) (items : List (Activity F))
      → reconciled known items ≡ map (flagged (canonical known items)) items
  unfolding reconciled
  reconciled-canonical known [] = refl
  reconciled-canonical known (it ∷ its) = ground (
    arith,
    apply-flagged known it its,
    reconciled-canonical (apply_fingerprint_identity it known).1 its,
    flagged-cong (canonical (apply_fingerprint_identity it known).1 its)
        (canonical known (it ∷ its)) its (canonical-apply known it its),
  )
