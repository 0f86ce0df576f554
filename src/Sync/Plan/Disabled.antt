-- ===== src/Sync/Plan/Disabled.antt =====
-- The plan of a snapshot leaves the accounts alone that the user has disabled.
use wealthfolio_connect_self.Prelude.{
  ℕ, String, ◌≡◌, ◌∙◌, refl, Bool, true, false, Option, none, some, List, [], ◌∷◌, map, arith,
  eq_iff, str_eq, if◌then◌else◌, All, All-append,
}
use wealthfolio_connect_self.Prelude.Map.{Map}
use wealthfolio_connect_self.Domain.Brokerage.{Connection, Account, Activity, Holdings}
use wealthfolio_connect_self.Domain.Error.{Error, Action, ok, next}
use wealthfolio_connect_self.Sync.Ports.{BrokerSnapshot, Repositories}
use wealthfolio_connect_self.Sync.Persist.{
  member, classify, unpublished, stamped, disabled_accounts, enabled_accounts, partial_accounts,
  connections_of, commit, persist_connections, persist_data, persist_snapshot,
}
use wealthfolio_connect_self.Sync.Plan.{
  Write, connection, account, holdings, holdings_synced, activities, retract, transactions_synced,
  perform, perform_all, plan, plan_holdings, plan_activities, plan_retractions, plan_published,
  persist_data-plan,
}

not_disabled :
    (j : String) (disabled : List String) (id : String)
    → member j disabled ≡ true
    → member id disabled ≡ false
    → str_eq id j ≡ false
not_disabled j disabled id known h = ground (arith, eq_iff id j)

module _ (F : Type 0) (j : String) where
  -- The write is to the account's row, its holdings or its activities.
  abbrev pub touches : Write F → Bool
  touches (connection c) = false
  touches (account a) = str_eq a.id j
  touches (holdings h) = str_eq h.account_id j
  touches (holdings_synced id t) = str_eq id j
  touches (activities id items) = str_eq id j
  touches (retract id ids) = str_eq id j
  touches (transactions_synced id t) = str_eq id j

  abbrev pub Spared : Write F → Type 0
  Spared w = touches w ≡ false

  -- No listed account is `j`.
  abbrev Absent : Account F → Type 0
  Absent a = str_eq a.id j ≡ false

  plan_accounts-Spared :
      (accs : List (Account F))
      → All Absent accs
      → All Spared (map (λ a. account (unpublished a)) accs)
  unfolding unpublished
  plan_accounts-Spared [] h = tt
  plan_accounts-Spared (a ∷ accs) h = (h.0, plan_accounts-Spared accs h.1)

  plan_published-Spared :
      (accs : List (Account F)) → All Absent accs → All Spared (plan_published accs)
  unfolding plan_published
  plan_published-Spared [] h = tt
  plan_published-Spared (a ∷ accs) h = ground (arith, plan_published-Spared accs h.1)

  module _ (disabled : List String) (known : member j disabled ≡ true) where
    plan_holdings-Spared :
        (now : ℕ) (hs : List (Holdings F)) → All Spared (plan_holdings now disabled hs)
    unfolding plan_holdings stamped
    plan_holdings-Spared now [] = tt
    plan_holdings-Spared now (h ∷ hs) =
        ground (arith, plan_holdings-Spared now hs, not_disabled j disabled h.account_id known)

    plan_activities-Spared : (m : Map (List (Activity F))) → All Spared (plan_activities disabled m)
    unfolding plan_activities
    plan_activities-Spared [] = tt
    plan_activities-Spared ((id, items) ∷ m) =
        ground (arith, plan_activities-Spared m, not_disabled j disabled id known)

    plan_retractions-Spared :
        (partials : List String) (m : Map (List String))
        → All Spared (plan_retractions disabled partials m)
    unfolding plan_retractions
    plan_retractions-Spared partials [] = tt
    plan_retractions-Spared partials ((id, ids) ∷ m) =
        ground (arith, plan_retractions-Spared partials m, not_disabled j disabled id known)

  -- The snapshot lists the account.
  abbrev pub listed : List (Account F) → Bool
  listed [] = false
  listed (a ∷ accs) = if str_eq a.id j then true else listed accs

  module _ {D : Type 0} (r : Repositories F D) (d : D) (saved : Account F)
      (stored : r.get_account j d ≡ ok saved) (off : saved.sync_enabled ≡ false) where
    member-disabled_accounts :
        (partials : List String) (accs : List (Account F))
        → listed accs ≡ true
        → member j (disabled_accounts r partials accs d) ≡ true
    unfolding member disabled_accounts classify
    member-disabled_accounts partials [] h = cc
    member-disabled_accounts partials (a ∷ accs) h =
        ground (arith, eq_iff a.id j, member-disabled_accounts partials accs)

    enabled_accounts-Absent :
        (partials : List String) (accs : List (Account F))
        → All Absent (enabled_accounts r partials accs d)
    unfolding enabled_accounts classify
    enabled_accounts-Absent partials [] = tt
    enabled_accounts-Absent partials (a ∷ accs) =
        ground (arith, eq_iff a.id j, enabled_accounts-Absent partials accs)

    -- No write of a snapshot's plan is to an account that the user has disabled, that is, which the
    -- snapshot lists and which is stored with `SyncEnabled` false.
    pub plan-Spared :
        (now : ℕ) (snap : BrokerSnapshot F)
        → listed snap.accounts ≡ true
        → All Spared (plan r now snap d)
    unfolding plan
    plan-Spared now snap here =
        let partials = partial_accounts snap.holdings in
        let disabled = disabled_accounts r partials snap.accounts d in
        let known = member-disabled_accounts partials snap.accounts here in
        let absent = enabled_accounts-Absent partials snap.accounts in
        All-append Spared _ _ (plan_accounts-Spared _ absent) (
          All-append Spared _ _ (plan_holdings-Spared disabled known now snap.holdings) (
            All-append Spared _ _ (plan_activities-Spared disabled known snap.activities) (
              All-append Spared _ _
                (plan_retractions-Spared disabled known partials snap.retracted_activities)
                (plan_published-Spared _ absent))))

-- What a reader sees of one account, `view`, is changed only by the writes to that account.
pub record IsFramed {F D : Type 0} (r : Repositories F D) (j : String) {V : Type 0} (view : D → V)
    : Type 0 where
  pub connections : (c : Connection) (d : D) → view (r.upsert_connection c d).1 ≡ view d
  pub others : (w : Write F) (d : D) → touches F j w ≡ false → view (perform r w d).1 ≡ view d

view-next :
    {D V : Type 0} (view : D → V) (v : V) (p : Option Error × D) (m : Action D)
    → view p.1 ≡ v
    → view (m p.1).1 ≡ view p.1
    → view (next p m).1 ≡ v
view-next view v (none, d) m h k = k ∙ h
view-next view v (some e, d) m h k = h

module _ {F D V : Type 0} (r : Repositories F D) (j : String) (view : D → V)
    (frame : IsFramed r j view) where
  perform_all-view :
      (ws : List (Write F)) (d : D) → All (Spared F j) ws → view (perform_all r ws d).1 ≡ view d
  unfolding perform_all
  perform_all-view [] d h = refl
  perform_all-view (w ∷ ws) d h =
      view-next view (view d) (perform r w d) (perform_all r ws) (frame.others w d h.0)
        (perform_all-view ws (perform r w d).1 h.1)

  persist_connections-view :
      (cs : List Connection) (d : D) → view (persist_connections r cs d).1 ≡ view d
  unfolding persist_connections
  persist_connections-view [] d = refl
  persist_connections-view (c ∷ cs) d =
      view-next view (view d) (perform r (connection c) d) (persist_connections r cs)
        (frame.connections c d) (persist_connections-view cs (r.upsert_connection c d).1)

  commit-view :
      (committed : Option (D → D))
      → ((f : D → D) → committed ≡ some f → (d : D) → view (f d) ≡ view d)
      → (d : D) → view (commit r committed d).1 ≡ view d
  commit-view none h d = refl
  commit-view (some f) h d = h f refl d

  -- Whether it ends well or in an error, persisting a snapshot changes nothing of an account that
  -- it lists and that is stored, once the connections are written, with `SyncEnabled` false, if
  -- each repository call changes only the account it names.
  pub persist_snapshot_spares_disabled :
      (now : ℕ) (committed : Option (D → D)) (snap : BrokerSnapshot F) (d : D) (saved : Account F)
      → ((f : D → D) → committed ≡ some f → (d : D) → view (f d) ≡ view d)
      → listed F j snap.accounts ≡ true
      → r.get_account j (persist_connections r (connections_of snap) d).1 ≡ ok saved
      → saved.sync_enabled ≡ false
      → view (persist_snapshot r now committed snap d).1 ≡ view d
  unfolding persist_snapshot
  persist_snapshot_spares_disabled now committed snap d saved quiet here stored off =
      let first = persist_connections r (connections_of snap) d in
      view-next view (view d) first (persist_data r now committed snap)
        (persist_connections-view (connections_of snap) d)
        (rw persist_data-plan (
          view-next view (view first.1) (perform_all r (plan r now snap first.1) first.1)
            (commit r committed)
            (perform_all-view _ first.1 (plan-Spared F j r first.1 saved stored off now snap here))
            (commit-view committed quiet _)))
