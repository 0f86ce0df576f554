-- ===== src/Persistence/Activities/Chunks.antt =====
-- The chunks of a batch, of internal/infrastructure/persistence/activities.go.
use mathlib.Core.List.{◌++◌}
use wealthfolio_connect_self.Prelude.{
  ℕ, zero, suc, ◌+◌, ◌-◌, ◌≤◌, ◌<◌, ◌≡◌, sym, ◌∙◌, List, [], ◌∷◌, length, take, drop, arith, All,
}
use wealthfolio_connect_self.Prelude.Sublists.{
  length-drop, length-take, length-take_positive, take-all, drop-all, take-drop, drop-drop,
}
use wealthfolio_connect_self.Persistence.Activities.{chunks_of}

module _ {A : Type 0} where
  pub concat : List (List A) → List A
  concat [] = []
  concat (xs ∷ xss) = xs ++ concat xss

  -- One turn: the chunk and what comes behind it.
  chunk-drop :
      (rows : List A) (start size : ℕ)
      → take size (drop start rows) ++ drop (start + size) rows ≡ drop start rows
  chunk-drop rows start size =
      rw (sym (drop-drop start size rows)) (take-drop size (drop start rows))

  -- A size that reaches past the end makes no difference.
  chunk-end :
      (rows : List A) (start size : ℕ)
      → length rows ≤ start + size
      → take (length rows - start) (drop start rows) ≡ take size (drop start rows)
  chunk-end rows start size h =
      take-all (length rows - start) (drop start rows) (omega (arith, length-drop start rows))
      ∙ sym (take-all size (drop start rows) (omega (arith, length-drop start rows)))

  concat-chunks_of :
      (fuel : ℕ) (rows : List A) (start : ℕ)
      → length rows ≤ start + fuel
      → concat (chunks_of fuel rows start) ≡ drop start rows
  unfolding concat chunks_of
  concat-chunks_of zero rows start h = sym (drop-all start rows (omega arith))
  concat-chunks_of (suc fuel) rows start h =
      let later = concat-chunks_of fuel rows (start + 500) (omega arith) in
      let size_same : start + 500 - start ≡ 500 = omega arith in
      ground (
        arith,
        later,
        chunk-drop rows start 500,
        chunk-end rows start 500,
        size_same,
        drop-all start rows,
      )

  chunks_of-Bounded :
      (fuel : ℕ) (rows : List A) (start : ℕ)
      → All (λ chunk. (0 < length chunk) × (length chunk ≤ 500)) (chunks_of fuel rows start)
  unfolding chunks_of
  chunks_of-Bounded zero rows start = tt
  chunks_of-Bounded (suc fuel) rows start = ground (
    arith,
    chunks_of-Bounded fuel rows (start + 500),
    length-drop start rows,
    length-take (length rows - start) (drop start rows),
    length-take (start + 500 - start) (drop start rows),
    length-take_positive (length rows - start) (drop start rows),
    length-take_positive (start + 500 - start) (drop start rows),
  )

-- The statements of a batch write its rows, each once and in order, between 1 and 500 rows at a time.
pub chunks_of-Faithful :
    {A : Type 0} (rows : List A)
    → (concat (chunks_of (length rows) rows 0) ≡ rows)
      × All (λ chunk. (0 < length chunk) × (length chunk ≤ 500)) (chunks_of (length rows) rows 0)
chunks_of-Faithful rows =
    (concat-chunks_of (length rows) rows 0 (omega arith), chunks_of-Bounded (length rows) rows 0)
