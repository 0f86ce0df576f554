-- ===== src/Sync/Engine.antt =====
-- `persistActivityPage`, `syncOne`, `runClient` and `RunOnce` of internal/application/sync/service.go.
use Prim.Native.String.{◌++◌}
use wealthfolio_connect_self.Prelude.{
  ℕ, ◌+◌, String, Bool, not, ◌&&◌, Option, none, some, List, [], ◌∷◌, is_empty, is_some, ltb, ◌==◌,
  length, if◌then◌else◌,
}
use wealthfolio_connect_self.Domain.Brokerage.{Account}
use wealthfolio_connect_self.Domain.Error.{
  Error, wrapped, Fetched, ok, failed, Action, done, ◌>>◌, wrapping, wrap, join,
}
use wealthfolio_connect_self.Sync.Ports.{
  BrokerClient, Repositories, ActivitySyncState, ActivityPage, Stream, ended, page,
}
use wealthfolio_connect_self.Sync.Persist.{has_snapshot_data, persist_snapshot}

module _ {F D : Type 0} (r : Repositories F D) where
  unfoldable pub persist_activity_page : ℕ → ActivityPage F → Action D
  persist_activity_page now p =
      (if is_empty p.items
        then done
        else wrapping "upsert activity page" (r.upsert_activities p.account_id p.items))
      >> wrapping "update activity sync checkpoint" (
          r.update_activity_sync_progress p.account_id (record {
            next_offset = p.next_offset;
            first_transaction_date = p.first_transaction_date;
            completed_at = if p.complete then some now else none;
          }))

  -- A stream with `persistActivityPage` as its sink.
  unfoldable pub run_stream : ℕ → Stream F → Action D
  run_stream now (ended e) d = (e, d)
  run_stream now (page p continue) d =
      let (e, d') = persist_activity_page now p d in run_stream now (continue e) d'

  -- The state that one stored account puts into `states`.
  abbrev pub sync_state : Account F → ActivitySyncState
  sync_state stored = record {
    account_id = stored.id;
    initial_sync_completed = stored.initial_tx_sync_done;
    last_successful_sync = stored.last_tx_sync;
    next_offset = stored.activity_sync_offset;
  }

  -- One round of the loop that collects `states`, given what the later rounds collect.
  unfoldable pub add_state :
      String
      → Fetched (Account F)
      → Fetched (List ActivitySyncState)
      → Fetched (List ActivitySyncState)
  add_state id (failed e) rest = failed (wrapped ("load activity sync state for " ++ id) e)
  add_state id (ok stored) (failed e) = failed e
  add_state id (ok stored) (ok states) =
      if stored.sync_enabled then ok (sync_state stored ∷ states) else ok states

  unfoldable pub load_states : List (Account F) → D → Fetched (List ActivitySyncState)
  unfolding add_state
  load_states [] d = ok []
  load_states (acc ∷ accs) d = add_state acc.id (r.get_account acc.id d) (load_states accs d)

  -- The part of `syncOne` behind the snapshot.
  unfoldable pub stream_from :
      ℕ → Option Error → List (Account F) → (List ActivitySyncState → Stream F) → Action D
  stream_from now fetch_error accounts stream d = elim (load_states accounts d) [
    | failed e ↦ (join fetch_error (some e), d)
    | ok states ↦ let (e, d') = run_stream now (stream states) d in (join fetch_error e, d')
  ]

  unfoldable pub after_snapshot : ℕ → BrokerClient F D → Option Error × D → Option Error × D
  after_snapshot now c (some e, d) = (join c.fetch_error (some e), d)
  after_snapshot now c (none, d) = elim c.stream_activities [
    | none ↦ (c.fetch_error, d)
    | some stream ↦ stream_from now c.fetch_error c.fetched.accounts stream d
  ]

  unfoldable pub sync_one : ℕ → BrokerClient F D → Action D
  sync_one now c d =
      if is_some c.fetch_error && not (has_snapshot_data c.fetched)
      then (wrap "fetch" c.fetch_error, d)
      else after_snapshot now c (persist_snapshot r now c.snapshot_committed c.fetched d)

-- The service's own state beside the repositories.
pub record RunState : Type 0 where
  pub last_run : ℕ

-- `runClient` behind `beginClient`: the error of `syncOne`, and whether the context was cancelled
-- by then. The result is the returned error and the new `lastRun`.
unfoldable pub finish_client : ℕ → Bool → Option Error → ℕ → Option Error × ℕ
finish_client now cancelled (some e) last_run =
    if cancelled then (none, last_run) else (some e, last_run)
finish_client now cancelled none last_run = if cancelled then (none, last_run) else (none, now)

unfoldable pub count_failed : List (Option Error) → ℕ
count_failed [] = 0
count_failed (none ∷ es) = count_failed es
count_failed (some e ∷ es) = count_failed es + 1

-- `errors.Join(errs...)`
unfoldable pub join_all : List (Option Error) → Option Error
join_all [] = none
join_all (e ∷ es) = join e (join_all es)

-- `RunOnce` behind its gate, once every client's run has reported.
unfoldable pub finish_run : ℕ → List (Option Error) → ℕ → Option Error × ℕ
finish_run now results last_run =
    if ltb 0 (length results) && count_failed results == length results
    then (wrap "sync: all brokers failed" (join_all results), last_run)
    else (none, now)
