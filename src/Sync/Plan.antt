-- ===== src/Sync/Plan.antt =====
-- What a snapshot writes, as data: the plan of a snapshot is the list of its writes in order, and
-- `persistSnapshot` runs that plan up to the first error.
pub mod Disabled
pub mod Partial
pub mod Order
use wealthfolio_connect_self.Prelude.{
  ℕ, String, ◌≡◌, refl, Bool, true, false, not, ◌&&◌, ◌||◌, Option, none, some, List, [], ◌∷◌, map,
  is_empty, is_some, if◌then◌else◌, arith, ap, sym, ◌∙◌, Bool-cases, Option-cases, inl, inr,
}
use mathlib.Core.List.{◌++◌}
use mathlib.Core.Path.{fun_ext}
use wealthfolio_connect_self.Prelude.Map.{Map}
use wealthfolio_connect_self.Domain.Brokerage.{Connection, Account, Activity, Holdings}
use wealthfolio_connect_self.Domain.Error.{
  Error, Action, done, next, >>_assoc, ◌>>◌, wrapping, wrap,
}
use wealthfolio_connect_self.Sync.Ports.{BrokerSnapshot, Repositories}
use wealthfolio_connect_self.Sync.Persist.{
  member, connections_of, partial_accounts, unpublished, stamped, persist_connections,
  disabled_accounts, enabled_accounts, persist_accounts, persist_holdings, persist_activities,
  persist_retractions, publish_transactions, commit, persist_data, persist_snapshot,
}

-- One call of a repository that writes.
pub data Write (F : Type 0) : Type 0 where
  connection : Connection → Write F
  account : Account F → Write F
  holdings : Holdings F → Write F
  holdings_synced : String → ℕ → Write F
  activities : String → List (Activity F) → Write F
  retract : String → List String → Write F
  transactions_synced : String → ℕ → Write F

module _ {F D : Type 0} (r : Repositories F D) where
  -- The call that a write stands for, with the text that the engine wraps its error in.
  abbrev pub perform : Write F → Action D
  perform (connection c) = wrapping "upsert connection" (r.upsert_connection c)
  perform (account a) = wrapping "upsert account" (r.upsert_account a)
  perform (holdings h) = wrapping "replace holdings" (r.replace_holdings h)
  perform (holdings_synced id t) =
      wrapping "update holdings sync status" (r.update_sync_status id none (some t))
  perform (activities id items) = wrapping "upsert activities" (r.upsert_activities id items)
  perform (retract id ids) = wrapping "delete retracted activities" (r.delete_activities id ids)
  perform (transactions_synced id t) =
      wrapping "update transaction sync status" (r.update_sync_status id (some t) none)

  -- The writes in order, up to the first that fails.
  pub perform_all : List (Write F) → Action D
  perform_all [] = done
  perform_all (w ∷ ws) = perform w >> perform_all ws

module _ {F : Type 0} where
  pub plan_holdings : ℕ → List String → List (Holdings F) → List (Write F)
  plan_holdings now disabled [] = []
  plan_holdings now disabled (h ∷ hs) =
      if member h.account_id disabled || h.partial
      then plan_holdings now disabled hs
      else holdings (stamped now h)
        ∷ holdings_synced h.account_id (stamped now h).captured_at
        ∷ plan_holdings now disabled hs

  pub plan_activities : List String → Map (List (Activity F)) → List (Write F)
  plan_activities disabled [] = []
  plan_activities disabled ((id, items) ∷ m) =
      if member id disabled || is_empty items
      then plan_activities disabled m
      else activities id items ∷ plan_activities disabled m

  pub plan_retractions : List String → List String → Map (List String) → List (Write F)
  plan_retractions disabled partials [] = []
  plan_retractions disabled partials ((id, ids) ∷ m) =
      if member id disabled || is_empty ids || member id partials
      then plan_retractions disabled partials m
      else retract id ids ∷ plan_retractions disabled partials m

  pub plan_published : List (Account F) → List (Write F)
  plan_published [] = []
  plan_published (acc ∷ accs) = elim acc.last_tx_sync [
    | none ↦ plan_published accs
    | some t ↦ transactions_synced acc.id t ∷ plan_published accs
  ]

  -- The writes behind the connections, for given sets of disabled and enabled accounts.
  pub plan_of : ℕ → List String → List (Account F) → BrokerSnapshot F → List (Write F)
  plan_of now disabled enabled snap =
      map (λ a. account (unpublished a)) enabled
      ++ (plan_holdings now disabled snap.holdings
          ++ (plan_activities disabled snap.activities
              ++ (plan_retractions disabled (partial_accounts snap.holdings)
                    snap.retracted_activities
                  ++ plan_published enabled)))

module _ {F D : Type 0} (r : Repositories F D) where
  pub plan : ℕ → BrokerSnapshot F → D → List (Write F)
  unfolding plan_of
  plan now snap d =
      let partials = partial_accounts snap.holdings in
      plan_of now (disabled_accounts r partials snap.accounts d)
        (enabled_accounts r partials snap.accounts d) snap

  perform_all-append :
      (xs ys : List (Write F)) → perform_all r (xs ++ ys) ≡ (perform_all r xs >> perform_all r ys)
  unfolding perform_all
  perform_all-append [] ys = refl
  perform_all-append (x ∷ xs) ys =
      ap (λ k. perform r x >> k) (perform_all-append xs ys)
      ∙ sym (>>_assoc (perform r x) (perform_all r xs) (perform_all r ys))

  persist_connections-perform :
      (cs : List Connection) → persist_connections r cs ≡ perform_all r (map connection cs)
  unfolding perform_all persist_connections
  persist_connections-perform [] = refl
  persist_connections-perform (c ∷ cs) = rw (persist_connections-perform cs)

  persist_accounts-perform :
      (accs : List (Account F))
      → persist_accounts r accs ≡ perform_all r (map (λ a. account (unpublished a)) accs)
  unfolding perform_all persist_accounts
  persist_accounts-perform [] = refl
  persist_accounts-perform (a ∷ accs) = rw (persist_accounts-perform accs)

  persist_holdings-perform :
      (now : ℕ) (disabled : List String) (hs : List (Holdings F))
      → persist_holdings r now disabled hs ≡ perform_all r (plan_holdings now disabled hs)
  unfolding perform_all persist_holdings plan_holdings
  persist_holdings-perform now disabled [] = refl
  persist_holdings-perform now disabled (h ∷ hs) =
      elim (Bool-cases (member h.account_id disabled || h.partial)) [
        | inl skip ↦ rw skip (persist_holdings-perform now disabled hs)
        | inr keep ↦
            rw (keep, persist_holdings-perform now disabled hs)
              (>>_assoc (perform r (holdings (stamped now h)))
                (perform r (holdings_synced h.account_id (stamped now h).captured_at))
                (perform_all r (plan_holdings now disabled hs)))
      ]

  persist_activities-perform :
      (disabled : List String) (m : Map (List (Activity F)))
      → persist_activities r disabled m ≡ perform_all r (plan_activities disabled m)
  unfolding perform_all persist_activities plan_activities
  persist_activities-perform disabled [] = refl
  persist_activities-perform disabled ((id, items) ∷ m) =
      elim (Bool-cases (member id disabled || is_empty items)) [
        | inl skip ↦ rw skip (persist_activities-perform disabled m)
        | inr keep ↦ rw (keep, persist_activities-perform disabled m)
      ]

  persist_retractions-perform :
      (disabled partials : List String) (m : Map (List String))
      → persist_retractions r disabled partials m
        ≡ perform_all r (plan_retractions disabled partials m)
  unfolding perform_all persist_retractions plan_retractions
  persist_retractions-perform disabled partials [] = refl
  persist_retractions-perform disabled partials ((id, ids) ∷ m) =
      elim (Bool-cases (member id disabled || is_empty ids || member id partials)) [
        | inl skip ↦ rw skip (persist_retractions-perform disabled partials m)
        | inr keep ↦ rw (keep, persist_retractions-perform disabled partials m)
      ]

  publish_transactions-perform :
      (accs : List (Account F)) → publish_transactions r accs ≡ perform_all r (plan_published accs)
  unfolding perform_all publish_transactions plan_published
  publish_transactions-perform [] = refl
  publish_transactions-perform (acc ∷ accs) = elim (Option-cases acc.last_tx_sync) [
    | inl e ↦ rw e (publish_transactions-perform accs)
    | inr (t, e) ↦ rw (e, publish_transactions-perform accs)
  ]

  persist_all-perform :
      (now : ℕ) (disabled : List String) (enabled : List (Account F)) (snap : BrokerSnapshot F)
      → (persist_accounts r enabled
          >> persist_holdings r now disabled snap.holdings
          >> persist_activities r disabled snap.activities
          >> persist_retractions r disabled
              (partial_accounts snap.holdings)
              snap.retracted_activities
          >> publish_transactions r enabled)
        ≡ perform_all r (plan_of now disabled enabled snap)
  unfolding plan_of
  persist_all-perform now disabled enabled snap =
      let partials = partial_accounts snap.holdings in
      let a = perform_all r (map (λ x. account (unpublished x)) enabled) in
      let b = perform_all r (plan_holdings now disabled snap.holdings) in
      let c = perform_all r (plan_activities disabled snap.activities) in
      let e = perform_all r (plan_retractions disabled partials snap.retracted_activities) in
      let f = perform_all r (plan_published enabled) in
      rw
        (
          persist_accounts-perform enabled,
          persist_holdings-perform now disabled snap.holdings,
          persist_activities-perform disabled snap.activities,
          persist_retractions-perform disabled partials snap.retracted_activities,
          publish_transactions-perform enabled,
          perform_all-append,
          perform_all-append,
          perform_all-append,
          perform_all-append,
        )
        (>>_assoc (a >> b >> c) e f ∙ >>_assoc (a >> b) c (e >> f) ∙ >>_assoc a b (c >> (e >> f)))

  -- Behind the connections, a snapshot performs exactly its plan, which is made from the state that
  -- the connections left, and then acknowledges.
  pub persist_data-plan :
      (now : ℕ) (committed : Option (D → D)) (snap : BrokerSnapshot F) (d : D)
      → persist_data r now committed snap d
        ≡ (perform_all r (plan now snap d) >> commit r committed) d
  unfolding persist_data plan
  persist_data-plan now committed snap d =
      let partials = partial_accounts snap.holdings in
      let all =
        persist_all-perform now (disabled_accounts r partials snap.accounts d)
          (enabled_accounts r partials snap.accounts d) snap in
      ap (λ (m : Action D). next (m d) (commit r committed)) all

  -- `persistSnapshot` writes the connections, then performs the plan that is made from the state
  -- which they left, and acknowledges the snapshot; the first write that fails ends it.
  pub persist_snapshot-plan :
      (now : ℕ) (committed : Option (D → D)) (snap : BrokerSnapshot F) (d : D)
      → persist_snapshot r now committed snap d
        ≡ (perform_all r (map connection (connections_of snap))
              >> (λ d'. (perform_all r (plan now snap d') >> commit r committed) d'))
            d
  unfolding persist_snapshot
  persist_snapshot-plan now committed snap d =
      rw (persist_connections-perform (connections_of snap)) (
        ap (next (perform_all r (map connection (connections_of snap)) d))
          (fun_ext (persist_data-plan now committed snap)))
