-- ===== src/Steam/Cursors/Progress.antt =====
-- `mergeProvenanceCursor` of internal/infrastructure/clients/steam/reconcile.go over many runs.

use wealthfolio_connect_self.Prelude.{
  ℕ, ◌≤◌, Bool, true, not, ◌||◌, List, [], ◌∷◌, ◌≡◌, ◌⊎◌, refl, sym, ◌∙◌, inl, inr, arith, str_eq,
}
use wealthfolio_connect_self.Steam.Cursors.{
  ProvenanceCursor, ProvenanceOutcome, merge_provenance_cursor,
}

-- The runs of a source, oldest first.
unfoldable pub after_runs : ProvenanceCursor → List ProvenanceOutcome → ProvenanceCursor
after_runs pc [] = pc
after_runs pc (out ∷ outs) = after_runs (merge_provenance_cursor pc out) outs

-- The run came to the end, or to the cap with an offset to resume from.
abbrev pub is_walked : ProvenanceOutcome → Bool
is_walked out = out.complete || not (str_eq out.resume "")

-- A time that one of the runs reports as its newest, of those whose rows were walked.
abbrev pub Observed : ℕ → List ProvenanceOutcome → Type 0
Observed t [] = ⊥
Observed t (out ∷ outs) = ((is_walked out ≡ true) × (out.newest ≡ t)) ⊎ Observed t outs

merge_provenance_cursor-watermark :
    (prev : ProvenanceCursor) (out : ProvenanceOutcome)
    → (prev.watermark ≤ (merge_provenance_cursor prev out).watermark)
      × (is_walked out ≡ true → out.newest ≤ (merge_provenance_cursor prev out).watermark)
      × (((merge_provenance_cursor prev out).watermark ≡ prev.watermark)
          ⊎ ((is_walked out ≡ true) × (out.newest ≡ (merge_provenance_cursor prev out).watermark)))
unfolding merge_provenance_cursor
merge_provenance_cursor-watermark prev out = ground arith

-- Over any runs of a source the watermark never goes back, is no less than the newest time that
-- any run reports which came to its end or to its cap with an offset, and is the first watermark
-- or the newest time that such a run reports; a run that failed or stalled leaves it where it is.
pub after_runs-watermark :
    (pc : ProvenanceCursor) (outs : List ProvenanceOutcome)
    → (pc.watermark ≤ (after_runs pc outs).watermark)
      × ((t : ℕ) → Observed t outs → t ≤ (after_runs pc outs).watermark)
      × (((after_runs pc outs).watermark ≡ pc.watermark)
          ⊎ Observed (after_runs pc outs).watermark outs)
unfolding after_runs
after_runs-watermark pc [] = (omega arith, λ t o. absurd o, inl refl)
after_runs-watermark pc (out ∷ outs) =
    let next = merge_provenance_cursor pc out in
    let first = merge_provenance_cursor-watermark pc out in
    let rest = after_runs-watermark next outs in
    (
      omega (arith, first.0, rest.0),
      λ t seen. elim seen [
        | inl (walked, at) ↦ omega (arith, first.1 walked, rest.0, at)
        | inr later ↦ rest.1 t later
      ],
      elim rest.2 [
        | inr later ↦ inr (inr later)
        | inl same ↦ elim first.2 [
          | inl kept ↦ inl (same ∙ kept)
          | inr (walked, at) ↦ inr (inl (walked, at ∙ sym same))
        ]
      ],
    )
