-- ===== src/Persistence/Accounts/Laws.antt =====
-- What the account repository of internal/infrastructure/persistence/repositories.go does to the rows.
use wealthfolio_connect_self.Prelude.{
  ℕ, String, ◌≡◌, refl, ap, Bool, true, ◌||◌, Option, none, some, [], ◌∷◌, str_eq, is_some,
  if◌then◌else◌, arith, eq_iff, inl, inr, Option-cases,
}
use wealthfolio_connect_self.Prelude.Int.{ℤ, pos}
use wealthfolio_connect_self.Prelude.Map.{Map, insert}
use wealthfolio_connect_self.Domain.Brokerage.{Account}
use wealthfolio_connect_self.Domain.Error.{Fetched-cases}
use wealthfolio_connect_self.Sync.Ports.{ActivitySyncProgress}
use wealthfolio_connect_self.Sync.Persist.{member}
use wealthfolio_connect_self.Persistence.AccountModel.{AccountPo, account_from_domain}
use wealthfolio_connect_self.Persistence.Accounts.{
  offset, AccountTable, account_conflict_columns, add_first_date, add_completed, progress_updates,
  Value, flag, status_updates, met, update_sync_status, set_sync_enabled, upsert_account,
  update_activity_sync_progress,
}
use wealthfolio_connect_self.Persistence.Accounts.Table.{
  IsTable, assign, inserted, set_column, set_columns, updated, earliest_of,
}

-- What a row has that no snapshot may overwrite.
pub record Owned : Type 0 where
  pub sync_enabled : Bool
  pub created_date : ℕ
  pub first_tx_date : Option ℕ
  pub activity_sync_offset : ℤ

abbrev pub owned : {F : Type 0} → Option (AccountPo F) → Option Owned
owned none = none
owned (some row) = some (record {
  sync_enabled = row.sync_enabled;
  created_date = row.created_date;
  first_tx_date = row.first_tx_date;
  activity_sync_offset = row.activity_sync_offset;
})

-- What a page checkpoint makes of a stored row.
abbrev pub progressed : {F : Type 0} → (ℕ → ℕ) → ActivitySyncProgress → AccountPo F → AccountPo F
progressed kept progress row = record row {
  activity_sync_offset = if is_some progress.completed_at then pos 0 else progress.next_offset;
  first_tx_date = elim progress.first_transaction_date [
    | none ↦ row.first_tx_date
    | some t ↦ earliest_of (kept t) row.first_tx_date
  ];
  last_tx_sync = elim progress.completed_at [ none ↦ row.last_tx_sync | some t ↦ some (kept t) ];
  initial_tx_sync_done = is_some progress.completed_at || row.initial_tx_sync_done;
}

module _ {F D : Type 0} (db : AccountTable F D) (table : IsTable db) where
  pub update_sync_status-row :
      (key id : String) (tx_sync holdings_sync : Option ℕ) (d : D)
      → table.row id (update_sync_status db key tx_sync holdings_sync d).1 ≡ (
          if is_some (update_sync_status db key tx_sync holdings_sync d).0
          then table.row id d
          else if str_eq key id
          then updated table.kept_time (status_updates tx_sync holdings_sync) (table.row id d)
          else table.row id d)
  unfolding update_sync_status status_updates set_columns insert
  update_sync_status-row key id tx_sync holdings_sync d =
      let m = status_updates tx_sync holdings_sync in
      elim (Fetched-cases (db.updates key m d).0) [
        | inl (n, met) ↦ ground (
          arith,
          met,
          table.updates-row key m d n (db.updates key m d).1 id
              (ap (λ f. (f, (db.updates key m d).1)) met),
        )
        | inr (e, missed) ↦ ground (
          arith,
          missed,
          table.updates-failed key m d e (db.updates key m d).1 id
              (ap (λ f. (f, (db.updates key m d).1)) missed),
        )
      ]

  owned-status_updates :
      (tx_sync holdings_sync : Option ℕ) (row : AccountPo F)
      → owned (some (set_columns table.kept_time (status_updates tx_sync holdings_sync) row))
        ≡ owned (some row)
  unfolding status_updates set_columns set_column insert
  owned-status_updates none none row = refl
  owned-status_updates (some t) none row = refl
  owned-status_updates none (some t) row = refl
  owned-status_updates (some t) (some u) row = refl

  update_sync_status-owned :
      (key id : String) (tx_sync holdings_sync : Option ℕ) (d : D)
      → owned (table.row id (update_sync_status db key tx_sync holdings_sync d).1)
        ≡ owned (table.row id d)
  update_sync_status-owned key id tx_sync holdings_sync d =
      rw (update_sync_status-row key id tx_sync holdings_sync d)
        (elim (Option-cases (table.row id d)) [
          | inl absent ↦ ground (arith, absent)
          | inr (row, stored) ↦
              ground (arith, stored, owned-status_updates tx_sync holdings_sync row)
        ])

  create-owned :
      (new : AccountPo F) (d : D) (id : String)
      → is_some (table.row id d) ≡ true
      → owned (table.row id (db.create account_conflict_columns new d).1) ≡ owned (table.row id d)
  unfolding assign inserted member
  create-owned new d id stored =
      ground (arith, table.create-row account_conflict_columns new d id, stored)

  -- Whether it succeeds or not, storing an account from a snapshot keeps what a stored row has of the
  -- user's preference, its creation date, its first transaction date and its activity offset.
  pub upsert_account-owned :
      (now : ℕ) (a : Account F) (d : D) (id : String)
      → is_some (table.row id d) ≡ true
      → owned (table.row id (upsert_account db now a d).1) ≡ owned (table.row id d)
  unfolding upsert_account
  upsert_account-owned now a d id stored =
      let row = account_from_domain now a in
      ground (
        arith,
        create-owned row d id stored,
        update_sync_status-owned a.id id a.last_tx_sync a.last_holdings_sync
            (db.create account_conflict_columns row d).1,
      )

  set_columns-options :
      (n : ℤ) (first completed : Option ℕ) (row : AccountPo F)
      → set_columns table.kept_time
          (add_completed completed (add_first_date first (("activity_sync_offset", offset n) ∷ [])))
          row
        ≡ progressed table.kept_time
            (record { next_offset = n; first_transaction_date = first; completed_at = completed })
            row
  unfolding set_columns set_column insert
  set_columns-options n none none row = refl
  set_columns-options n (some t) none row = refl
  set_columns-options n none (some u) row = refl
  set_columns-options n (some t) (some u) row = refl

  set_columns-progress :
      (progress : ActivitySyncProgress) (row : AccountPo F)
      → set_columns table.kept_time (progress_updates progress) row
        ≡ progressed table.kept_time progress row
  unfolding progress_updates
  set_columns-progress progress row =
      set_columns-options progress.next_offset progress.first_transaction_date progress.completed_at
        row

  -- A checkpoint that is stored without an error had a row, which gets the page's offset, or 0 with
  -- the mark of a complete history, and whose first transaction date never moves to a later day; no
  -- other row changes. Without a row the call reports an error.
  pub update_activity_sync_progress-row :
      (key id : String) (progress : ActivitySyncProgress) (d : D)
      → (update_activity_sync_progress db key progress d).0 ≡ none
      → (old : AccountPo F) × (table.row key d ≡ some old)
        × (table.row id (update_activity_sync_progress db key progress d).1 ≡ (
            if str_eq key id
            then some (progressed table.kept_time progress old)
            else table.row id d))
  unfolding update_activity_sync_progress
  update_activity_sync_progress-row key id progress d h =
      let m = progress_updates progress in
      elim (Fetched-cases (db.updates key m d).0) [
        | inl (n, found) ↦
            let (row_after, rows) =
              table.updates-row key m d n (db.updates key m d).1 id
                (ap (λ f. (f, (db.updates key m d).1)) found) in
            elim (Option-cases (table.row key d)) [
              | inl absent ↦ ground (arith, h, found, rows, absent)
              | inr (old, stored) ↦ (
                old,
                stored,
                ground (
                  arith,
                  h,
                  found,
                  row_after,
                  rows,
                  stored,
                  eq_iff key id,
                  set_columns-progress progress old,
                ),
              )
            ]
        | inr (e, missed) ↦ ground (arith, h, missed)
      ]

  -- A preference that is stored without an error is in the row, with everything else as it was.
  pub set_sync_enabled-row :
      (key : String) (enabled : Bool) (d : D)
      → (set_sync_enabled db key enabled d).0 ≡ none
      → (old : AccountPo F) × (table.row key d ≡ some old)
        × (table.row key (set_sync_enabled db key enabled d).1
            ≡ some (record old { sync_enabled = enabled }))
  unfolding set_sync_enabled set_columns set_column
  set_sync_enabled-row key enabled d h =
      let m : Map Value = ("sync_enabled", flag enabled) ∷ [] in
      elim (Fetched-cases (db.updates key m d).0) [
        | inl (n, found) ↦
            let (row_after, rows) =
              table.updates-row key m d n (db.updates key m d).1 key
                (ap (λ f. (f, (db.updates key m d).1)) found) in
            elim (Option-cases (table.row key d)) [
              | inl absent ↦ ground (arith, h, found, rows, absent)
              | inr (old, stored) ↦
                  (old, stored, ground (arith, h, found, row_after, rows, stored, eq_iff key key))
            ]
        | inr (e, missed) ↦ ground (arith, h, missed)
      ]
