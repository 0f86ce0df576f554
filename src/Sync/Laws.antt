-- ===== src/Sync/Laws.antt =====
-- The outcome of a whole run, and which accounts a paged client is asked to stream.
use mathlib.Core.Path.{subst}
use wealthfolio_connect_self.Prelude.{
  ℕ, ◌≤◌, String, ◌≡◌, ◌≢◌, ◌↔◌, refl, true, Option, none, some, List, [], ◌∷◌, map, arith, is_some,
  ◌==◌, length, if◌then◌else◌, All, Bool-cases, Option-cases, inl, inr,
}
use wealthfolio_connect_self.Domain.Brokerage.{Account}
use wealthfolio_connect_self.Domain.Error.{Error, Fetched, ok, failed}
use wealthfolio_connect_self.Sync.Ports.{Repositories, ActivitySyncState}
use wealthfolio_connect_self.Sync.Engine.{
  load_states, add_state, sync_state, finish_client, count_failed, join_all, finish_run,
}

-- A client's run reported an error.
abbrev pub Failed : Option Error → Type 0
Failed e = is_some e ≡ true

count_failed-le : (es : List (Option Error)) → count_failed es ≤ length es
unfolding count_failed
count_failed-le [] = omega arith
count_failed-le (none ∷ es) = omega (arith, count_failed-le es)
count_failed-le (some e ∷ es) = omega (arith, count_failed-le es)

All-Failed : (es : List (Option Error)) → count_failed es ≡ length es → All Failed es
unfolding count_failed
All-Failed [] h = tt
All-Failed (none ∷ es) h = absurd (omega (arith, count_failed-le es))
All-Failed (some e ∷ es) h = (refl, All-Failed es (omega arith))

count_failed-All : (es : List (Option Error)) → All Failed es → count_failed es ≡ length es
unfolding count_failed
count_failed-All [] h = refl
count_failed-All (none ∷ es) h = cc
count_failed-All (some e ∷ es) h = omega (arith, count_failed-All es h.1)

join_all-Failed :
    (e : Option Error) (es : List (Option Error)) → Failed e → Failed (join_all (e ∷ es))
unfolding join_all
join_all-Failed none es h = cc
join_all-Failed (some e) es h = ground arith

-- A run is an error exactly if there is a client and every client failed. Then `lastRun` stays;
-- otherwise the run reports success and sets it.
pub finish_run_fails :
    (now last_run : ℕ) (results : List (Option Error))
    → ((is_some (finish_run now results last_run).0 ≡ true) ↔ ((results ≢ []) × All Failed results))
      × ((finish_run now results last_run).1
          ≡ (if is_some (finish_run now results last_run).0 then last_run else now))
unfolding finish_run
finish_run_fails now last_run [] = ((λ h. cc, λ h. absurd (h.0 refl)), refl)
finish_run_fails now last_run (e ∷ es) =
    elim (Bool-cases (count_failed (e ∷ es) == length (e ∷ es))) [
      | inl all ↦
          let failures = All-Failed (e ∷ es) (ground arith) in
          let reported = join_all-Failed e es failures.0 in
          (
            (λ h. ((λ q. cc), failures), λ h. ground (arith, Option-cases (join_all (e ∷ es)))),
            ground (arith, Option-cases (join_all (e ∷ es))),
          )
      | inr some_ok ↦
          ((λ h. ground arith, λ h. ground (arith, count_failed-All (e ∷ es) h.1)), ground arith)
    ]

none_failed :
    (now last_run : ℕ) (errors : List (Option Error))
    → count_failed (map (λ e. (finish_client now true e last_run).0) errors) ≡ 0
unfolding count_failed finish_client
none_failed now last_run [] = refl
none_failed now last_run (none ∷ errors) = none_failed now last_run errors
none_failed now last_run (some e ∷ errors) = none_failed now last_run errors

-- A cancelled run counts as a success: whatever `syncOne` returned to each client, the run reports
-- no error and sets `lastRun`.
pub finish_run_cancelled :
    (now last_run : ℕ) (errors : List (Option Error))
    → finish_run now (map (λ e. (finish_client now true e last_run).0) errors) last_run
      ≡ (none, now)
unfolding finish_run
finish_run_cancelled now last_run errors = ground (arith, none_failed now last_run errors)

module _ {F D : Type 0} (r : Repositories F D) where
  -- The state comes from a stored account that is enabled.
  abbrev pub IsEnabledState : D → ActivitySyncState → Type 0
  IsEnabledState d s =
      (id : String) × (stored : Account F) × (r.get_account id d ≡ ok stored)
      × (stored.sync_enabled ≡ true)
      × (s ≡ sync_state r stored)

  abbrev AllEnabled : D → Fetched (List ActivitySyncState) → Type 0
  AllEnabled d (failed e) = Unit
  AllEnabled d (ok states) = All (IsEnabledState d) states

  add_state-AllEnabled :
      (d : D) (id : String) (got : Fetched (Account F)) (rest : Fetched (List ActivitySyncState))
      → r.get_account id d ≡ got
      → AllEnabled d rest
      → AllEnabled d (add_state r id got rest)
  unfolding add_state
  add_state-AllEnabled d id (failed e) rest h all = tt
  add_state-AllEnabled d id (ok stored) (failed e) h all = tt
  add_state-AllEnabled d id (ok stored) (ok states) h all = elim (Bool-cases stored.sync_enabled) [
    | inl on ↦ rw on ((id, stored, h, on, refl), all)
    | inr off ↦ rw off all
  ]

  load_states-AllEnabled : (accs : List (Account F)) (d : D) → AllEnabled d (load_states r accs d)
  unfolding load_states
  load_states-AllEnabled [] d = tt
  load_states-AllEnabled (acc ∷ accs) d =
      add_state-AllEnabled d acc.id (r.get_account acc.id d) (load_states r accs d) refl
        (load_states-AllEnabled accs d)

  -- A paged client is asked for the activities of enabled accounts only, each from its stored
  -- checkpoint.
  pub load_states-enabled :
      (accs : List (Account F)) (d : D) {states : List ActivitySyncState}
      → load_states r accs d ≡ ok states
      → All (IsEnabledState d) states
  load_states-enabled accs d h = subst (AllEnabled d) h (load_states-AllEnabled accs d)
