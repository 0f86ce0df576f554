-- ===== src/Sync/Plan/Order.antt =====
-- Completion is published last, and a failed snapshot is not acknowledged.
use wealthfolio_connect_self.Prelude.{
  ℕ, String, ◌≡◌, refl, false, Option, none, some, List, [], ◌∷◌, map, arith, All, All-append,
}
use mathlib.Core.List.{◌++◌, append_assoc}
use wealthfolio_connect_self.Prelude.Map.{Map}
use wealthfolio_connect_self.Domain.Brokerage.{Account, Activity, Holdings}
use wealthfolio_connect_self.Domain.Error.{Error, Action, next}
use wealthfolio_connect_self.Sync.Ports.{BrokerSnapshot, Repositories}
use wealthfolio_connect_self.Sync.Persist.{
  unpublished, disabled_accounts, enabled_accounts, partial_accounts, connections_of, commit,
  persist_connections, persist_data, persist_snapshot,
}
use wealthfolio_connect_self.Sync.Plan.{
  Write, account, transactions_synced, perform_all, plan, plan_holdings, plan_activities,
  plan_retractions, plan_published, persist_data-plan,
}

module _ {F : Type 0} where
  -- A write of data: it marks no transaction history as complete, and a row that it stores claims
  -- none.
  abbrev pub IsData : Write F → Type 0
  IsData (account a) =
      (a.last_tx_sync ≡ none)
      × (a.initial_tx_sync_done ≡ false)
      × (a.last_holdings_sync ≡ none)
      × (a.initial_holdings_done ≡ false)
  IsData (transactions_synced id t) = ⊥
  IsData _ = Unit

  abbrev pub IsMark : Write F → Type 0
  IsMark (transactions_synced id t) = Unit
  IsMark _ = ⊥

  plan_accounts-IsData :
      (accs : List (Account F)) → All IsData (map (λ a. account (unpublished a)) accs)
  unfolding unpublished
  plan_accounts-IsData [] = tt
  plan_accounts-IsData (a ∷ accs) = ((refl, refl, refl, refl), plan_accounts-IsData accs)

  plan_holdings-IsData :
      (now : ℕ) (disabled : List String) (hs : List (Holdings F))
      → All IsData (plan_holdings now disabled hs)
  unfolding plan_holdings
  plan_holdings-IsData now disabled [] = tt
  plan_holdings-IsData now disabled (h ∷ hs) = ground (arith, plan_holdings-IsData now disabled hs)

  plan_activities-IsData :
      (disabled : List String) (m : Map (List (Activity F)))
      → All IsData (plan_activities disabled m)
  unfolding plan_activities
  plan_activities-IsData disabled [] = tt
  plan_activities-IsData disabled ((id, items) ∷ m) =
      ground (arith, plan_activities-IsData disabled m)

  plan_published-IsMark : (accs : List (Account F)) → All IsMark (plan_published accs)
  unfolding plan_published
  plan_published-IsMark [] = tt
  plan_published-IsMark (a ∷ accs) = ground (arith, plan_published-IsMark accs)

-- `SnapshotCommitted` behind what persisting returned.
abbrev pub acknowledge : {D : Type 0} → (D → D) → Option Error × D → Option Error × D
acknowledge f (none, d) = (none, f d)
acknowledge f (some e, d) = (some e, d)

plan_retractions-IsData :
    (F : Type 0) (disabled partials : List String) (m : Map (List String))
    → All (IsData {F = F}) (plan_retractions disabled partials m)
unfolding plan_retractions
plan_retractions-IsData F disabled partials [] = tt
plan_retractions-IsData F disabled partials ((id, ids) ∷ m) =
    ground (arith, plan_retractions-IsData F disabled partials m)

module _ {F D : Type 0} (r : Repositories F D) where
  -- The plan of a snapshot is its data followed by the marks of complete transaction histories: all
  -- data is written before the first mark, and no row that is stored claims completion.
  pub plan_order :
      (now : ℕ) (snap : BrokerSnapshot F) (d : D)
      → (front back : List (Write F)) × (plan r now snap d ≡ front ++ back)
        × All IsData front
        × All IsMark back
  unfolding plan
  plan_order now snap d =
      let partials = partial_accounts snap.holdings in
      let disabled = disabled_accounts r partials snap.accounts d in
      let enabled = enabled_accounts r partials snap.accounts d in
      let a = map (λ (x : Account F). account (unpublished x)) enabled in
      let b = plan_holdings now disabled snap.holdings in
      let c = plan_activities disabled snap.activities in
      let e = plan_retractions {F = F} disabled partials snap.retracted_activities in
      (
        a ++ (b ++ (c ++ e)),
        plan_published enabled,
        simp append_assoc,
        All-append IsData a _ (plan_accounts-IsData enabled) (
            All-append IsData b _ (plan_holdings-IsData now disabled snap.holdings) (
              All-append IsData c e (plan_activities-IsData disabled snap.activities)
                (plan_retractions-IsData F disabled partials snap.retracted_activities))),
        plan_published-IsMark enabled,
      )

  next-commit :
      (f : D → D) (p : Option Error × D)
      → next p (commit r (some f)) ≡ acknowledge f (next p (commit r none))
  next-commit f (none, d) = refl
  next-commit f (some e, d) = refl

  persist_data-acknowledge :
      (now : ℕ) (f : D → D) (snap : BrokerSnapshot F) (d : D)
      → persist_data r now (some f) snap d ≡ acknowledge f (persist_data r now none snap d)
  persist_data-acknowledge now f snap d =
      rw (persist_data-plan, persist_data-plan)
        (next-commit f (perform_all r (plan r now snap d) d))

  next-acknowledge :
      (f : D → D) (p : Option Error × D) (m k : Action D)
      → ((d : D) → m d ≡ acknowledge f (k d))
      → next p m ≡ acknowledge f (next p k)
  next-acknowledge f (none, d) m k h = h d
  next-acknowledge f (some e, d) m k h = refl

  -- A client is acknowledged exactly once, on the state that persisting the snapshot left, if that
  -- ended well; where it ended in an error, the error and the state are those of a client that
  -- wants no acknowledgement.
  pub persist_snapshot-acknowledge :
      (now : ℕ) (f : D → D) (snap : BrokerSnapshot F) (d : D)
      → persist_snapshot r now (some f) snap d ≡ acknowledge f (persist_snapshot r now none snap d)
  unfolding persist_snapshot
  persist_snapshot-acknowledge now f snap d =
      next-acknowledge f (persist_connections r (connections_of snap) d)
        (persist_data r now (some f) snap) (persist_data r now none snap)
        (persist_data-acknowledge now f snap)
