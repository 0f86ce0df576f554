-- ===== src/Sync/Persist.antt =====
-- `persistSnapshot`, `persistActivityPage`, `syncOne` and `runClient` of
-- internal/application/sync/service.go: one function for each loop of the code. `now` is the reading
-- of `time.Now()`.
use wealthfolio_connect_self.Prelude.{
  ℕ, String, Bool, true, false, not, ◌&&◌, ◌||◌, Option, none, some, List, [], ◌∷◌, str_eq,
  is_empty, is_some, if◌then◌else◌,
}
use wealthfolio_connect_self.Prelude.Map.{Map}
use wealthfolio_connect_self.Prelude.Time.{is_zero}
use wealthfolio_connect_self.Domain.Brokerage.{Connection, Account, Activity, Holdings}
use wealthfolio_connect_self.Domain.Error.{Fetched, ok, failed, Action, done, ◌>>◌, wrapping}
use wealthfolio_connect_self.Sync.Ports.{BrokerSnapshot, Repositories}

-- `m[id]` of a `map[string]bool` whose keys are those in the list.
unfoldable pub member : String → List String → Bool
member id [] = false
member id (k ∷ ks) = if str_eq k id then true else member id ks

module _ {F : Type 0} where
  unfoldable pub has_snapshot_data : BrokerSnapshot F → Bool
  has_snapshot_data snap =
      not (str_eq snap.connection.id "")
      || not (is_empty snap.connections)
      || not (is_empty snap.accounts)
      || not (is_empty snap.holdings)
      || not (is_empty snap.activities)

  -- The local `connections`.
  unfoldable pub connections_of : BrokerSnapshot F → List Connection
  connections_of snap =
      if is_empty snap.connections && not (str_eq snap.connection.id "")
      then snap.connection ∷ []
      else snap.connections

  -- The keys of `partialAccounts`.
  unfoldable pub partial_accounts : List (Holdings F) → List String
  partial_accounts [] = []
  partial_accounts (h ∷ hs) =
      let rest = partial_accounts hs in if h.partial then h.account_id ∷ rest else rest

  -- What the classifying loop does with one account, after its `Get`: `none` for `disabled`, or the
  -- account that is appended to `enabled`.
  unfoldable pub classify : List String → Account F → Fetched (Account F) → Option (Account F)
  classify partials acc (failed e) = some acc
  classify partials acc (ok saved) =
      if not saved.sync_enabled
      then none
      else if member acc.id partials
      then some (record acc {
        balance_total = saved.balance_total;
        balance_currency = saved.balance_currency;
      })
      else some acc

  -- The account as it is first stored: completion is published only later.
  unfoldable pub unpublished : Account F → Account F
  unpublished acc = record acc {
    last_tx_sync = none;
    initial_tx_sync_done = false;
    last_holdings_sync = none;
    initial_holdings_done = false;
  }

  unfoldable pub stamped : ℕ → Holdings F → Holdings F
  stamped now h = if is_zero h.captured_at then record h { captured_at = now } else h

module _ {F D : Type 0} (r : Repositories F D) where
  unfoldable pub persist_connections : List Connection → Action D
  persist_connections [] = done
  persist_connections (c ∷ cs) =
      wrapping "upsert connection" (r.upsert_connection c) >> persist_connections cs

  -- The keys of `disabled`; the reads change nothing, so they all see the same state.
  unfoldable pub disabled_accounts : List String → List (Account F) → D → List String
  disabled_accounts partials [] d = []
  disabled_accounts partials (acc ∷ accs) d =
      let rest = disabled_accounts partials accs d in
      elim (classify partials acc (r.get_account acc.id d)) [ none ↦ acc.id ∷ rest | some _ ↦ rest ]

  unfoldable pub enabled_accounts : List String → List (Account F) → D → List (Account F)
  enabled_accounts partials [] d = []
  enabled_accounts partials (acc ∷ accs) d =
      let rest = enabled_accounts partials accs d in
      elim (classify partials acc (r.get_account acc.id d)) [
        | none ↦ rest
        | some acc' ↦ acc' ∷ rest
      ]

  unfoldable pub persist_accounts : List (Account F) → Action D
  persist_accounts [] = done
  persist_accounts (acc ∷ accs) =
      wrapping "upsert account" (r.upsert_account (unpublished acc)) >> persist_accounts accs

  unfoldable pub persist_holdings : ℕ → List String → List (Holdings F) → Action D
  persist_holdings now disabled [] = done
  persist_holdings now disabled (h ∷ hs) =
      let rest = persist_holdings now disabled hs in
      if member h.account_id disabled || h.partial
      then rest
      else wrapping "replace holdings" (r.replace_holdings (stamped now h))
        >> wrapping "update holdings sync status"
            (r.update_sync_status h.account_id none (some (stamped now h).captured_at))
        >> rest

  unfoldable pub persist_activities : List String → Map (List (Activity F)) → Action D
  persist_activities disabled [] = done
  persist_activities disabled ((id, items) ∷ m) =
      let rest = persist_activities disabled m in
      if member id disabled || is_empty items
      then rest
      else wrapping "upsert activities" (r.upsert_activities id items) >> rest

  unfoldable pub persist_retractions : List String → List String → Map (List String) → Action D
  persist_retractions disabled partials [] = done
  persist_retractions disabled partials ((id, source_ids) ∷ m) =
      let rest = persist_retractions disabled partials m in
      if member id disabled || is_empty source_ids || member id partials
      then rest
      else wrapping "delete retracted activities" (r.delete_activities id source_ids) >> rest

  unfoldable pub publish_transactions : List (Account F) → Action D
  publish_transactions [] = done
  publish_transactions (acc ∷ accs) =
      let rest = publish_transactions accs in
      if is_some acc.last_tx_sync
      then wrapping "update transaction sync status"
          (r.update_sync_status acc.id acc.last_tx_sync none)
        >> rest
      else rest

  -- `if committer, ok := c.(SnapshotCommitter); ok { committer.SnapshotCommitted() }`
  abbrev pub commit : Option (D → D) → Action D
  commit none d = (none, d)
  commit (some f) d = (none, f d)

  -- `persistSnapshot` from the end of its first loop on.
  unfoldable pub persist_data : ℕ → Option (D → D) → BrokerSnapshot F → Action D
  persist_data now committed snap d =
      let partials = partial_accounts snap.holdings in
      let disabled = disabled_accounts partials snap.accounts d in
      let enabled = enabled_accounts partials snap.accounts d in
      (persist_accounts enabled
          >> persist_holdings now disabled snap.holdings
          >> persist_activities disabled snap.activities
          >> persist_retractions disabled partials snap.retracted_activities
          >> publish_transactions enabled
          >> commit committed)
        d

  unfoldable pub persist_snapshot : ℕ → Option (D → D) → BrokerSnapshot F → Action D
  persist_snapshot now committed snap =
      persist_connections (connections_of snap) >> persist_data now committed snap
