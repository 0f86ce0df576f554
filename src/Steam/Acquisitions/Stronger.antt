-- ===== src/Steam/Acquisitions/Stronger.antt =====
-- `applyStoredAcquisitions` of internal/infrastructure/clients/steam/reconcile.go: the order in which
-- evidence is compared.
use wealthfolio_connect_self.Prelude.{
  ℕ, ◌≤◌, ◌<◌, false, some, ◌≡◌, ◌⊎◌, inl, inr, arith, str_eq, Bool-cases,
}
use wealthfolio_connect_self.Steam.Model.{Resolution, SteamAcquisitionRow, match_unresolved}
use wealthfolio_connect_self.Steam.Acquisitions.{
  acquisition_rank, score_of, stored_score, keeps_fresh, with_stored,
}

-- The order of the evidence: by rank, and at the same rank by the count of its fields.
abbrev pub NotWeaker : ℕ → ℕ → ℕ → ℕ → Type 0
NotWeaker rank score rank' score' = (rank' < rank) ⊎ ((rank ≡ rank') × (score' ≤ score))

module _ {F : Type 0} where
  -- What the merge returns for an asset is the fresh match or the stored evidence as a whole, and is
  -- weaker than neither, where the stored confidence is not one of no evidence.
  pub with_stored-NotWeaker :
      (r : Resolution F) (st : SteamAcquisitionRow F)
      → str_eq st.match_confidence "" ≡ false
      → str_eq st.match_confidence match_unresolved ≡ false
      → let merged = with_stored r (some st) in
        NotWeaker
          (acquisition_rank merged.match_confidence)
          (score_of merged)
          (acquisition_rank r.match_confidence)
          (score_of r)
        × NotWeaker
            (acquisition_rank merged.match_confidence)
            (score_of merged)
            (acquisition_rank st.match_confidence)
            (stored_score st)
  unfolding with_stored keeps_fresh
  with_stored-NotWeaker r st h k = elim (Bool-cases (keeps_fresh r st)) [
    | inl kept ↦ ground (arith, h, k, kept)
    | inr replaced ↦ ground (arith, h, k, replaced)
  ]
