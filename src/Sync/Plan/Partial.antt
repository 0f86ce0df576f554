-- ===== src/Sync/Plan/Partial.antt =====
-- A partial snapshot never overwrites or deletes what a complete one has stored.
use wealthfolio_connect_self.Prelude.{
  ℕ, String, ◌≡◌, true, false, some, List, [], ◌∷◌, map, arith, All, All-append, Option-cases, inl,
  inr,
}
use wealthfolio_connect_self.Prelude.Map.{Map}
use wealthfolio_connect_self.Domain.Brokerage.{Account, Activity, Holdings}
use wealthfolio_connect_self.Domain.Error.{Fetched, ok, failed}
use wealthfolio_connect_self.Sync.Ports.{BrokerSnapshot, Repositories}
use wealthfolio_connect_self.Sync.Persist.{
  member, classify, unpublished, stamped, disabled_accounts, enabled_accounts, partial_accounts,
}
use wealthfolio_connect_self.Sync.Plan.{
  Write, connection, account, holdings, holdings_synced, activities, retract, transactions_synced,
  plan, plan_holdings, plan_activities, plan_retractions, plan_published,
}

module _ {F D : Type 0} (r : Repositories F D) (d : D) (partials : List String) where
  -- Holdings that are written are complete, nothing is retracted from a partial account, and the
  -- row of a partial account keeps the totals that are stored.
  abbrev pub Careful : Write F → Type 0
  Careful (connection c) = Unit
  Careful (account a) =
      (saved : Account F)
      → r.get_account a.id d ≡ ok saved
      → member a.id partials ≡ true
      → (a.balance_total ≡ saved.balance_total) × (a.balance_currency ≡ saved.balance_currency)
  Careful (holdings h) = h.partial ≡ false
  Careful (holdings_synced id t) = Unit
  Careful (activities id items) = Unit
  Careful (retract id ids) = member id partials ≡ false
  Careful (transactions_synced id t) = Unit

  classify-totals :
      (a a' saved : Account F) (got : Fetched (Account F))
      → classify partials a got ≡ some a'
      → (a'.id ≡ a.id)
        × (got ≡ ok saved
            → member a.id partials ≡ true
            → (a'.balance_total ≡ saved.balance_total)
              × (a'.balance_currency ≡ saved.balance_currency))
  unfolding classify
  classify-totals a a' saved (failed e) h = (ground arith, λ q. cc)
  classify-totals a a' saved (ok s) h = (ground arith, λ q m. ground arith)

  account-Careful :
      (a a' : Account F)
      → classify partials a (r.get_account a.id d) ≡ some a'
      → Careful (account (unpublished a'))
  unfolding unpublished
  account-Careful a a' h saved stored partial =
      let (same, totals) = classify-totals a a' saved (r.get_account a.id d) h in
      totals (rw same at stored) (rw same at partial)

  plan_accounts-Careful :
      (accs : List (Account F))
      → All Careful (map (λ a. account (unpublished a)) (enabled_accounts r partials accs d))
  unfolding enabled_accounts
  plan_accounts-Careful [] = tt
  plan_accounts-Careful (a ∷ accs) =
      elim (Option-cases (classify partials a (r.get_account a.id d))) [
        | inl off ↦ rw (off, enabled_accounts) (plan_accounts-Careful accs)
        | inr (a', on) ↦
            rw (on, enabled_accounts) (account-Careful a a' on, plan_accounts-Careful accs)
      ]

  plan_holdings-Careful :
      (now : ℕ) (disabled : List String) (hs : List (Holdings F))
      → All Careful (plan_holdings now disabled hs)
  unfolding plan_holdings stamped
  plan_holdings-Careful now disabled [] = tt
  plan_holdings-Careful now disabled (h ∷ hs) =
      ground (arith, plan_holdings-Careful now disabled hs)

  plan_activities-Careful :
      (disabled : List String) (m : Map (List (Activity F)))
      → All Careful (plan_activities disabled m)
  unfolding plan_activities
  plan_activities-Careful disabled [] = tt
  plan_activities-Careful disabled ((id, items) ∷ m) =
      ground (arith, plan_activities-Careful disabled m)

  plan_retractions-Careful :
      (disabled : List String) (m : Map (List String))
      → All Careful (plan_retractions disabled partials m)
  unfolding plan_retractions
  plan_retractions-Careful disabled [] = tt
  plan_retractions-Careful disabled ((id, ids) ∷ m) =
      ground (arith, plan_retractions-Careful disabled m)

  plan_published-Careful : (accs : List (Account F)) → All Careful (plan_published accs)
  unfolding plan_published
  plan_published-Careful [] = tt
  plan_published-Careful (a ∷ accs) = ground (arith, plan_published-Careful accs)

module _ {F D : Type 0} (r : Repositories F D) where
  -- In the plan of a snapshot every holdings write is of a complete snapshot, no activity of an
  -- account with partial holdings is retracted, and such an account keeps its stored totals, if it
  -- could be read.
  pub plan-Careful :
      (now : ℕ) (snap : BrokerSnapshot F) (d : D)
      → All (Careful r d (partial_accounts snap.holdings)) (plan r now snap d)
  unfolding plan
  plan-Careful now snap d =
      let partials = partial_accounts snap.holdings in
      let disabled = disabled_accounts r partials snap.accounts d in
      let enabled = enabled_accounts r partials snap.accounts d in
      let P = Careful r d partials in
      All-append P _ _ (plan_accounts-Careful r d partials snap.accounts) (
        All-append P _ _ (plan_holdings-Careful r d partials now disabled snap.holdings) (
          All-append P _ _ (plan_activities-Careful r d partials disabled snap.activities) (
            All-append P _ _
              (plan_retractions-Careful r d partials disabled snap.retracted_activities)
              (plan_published-Careful r d partials enabled))))
