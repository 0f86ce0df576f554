-- ===== src/Persistence/Holdings/RoundTrip.antt =====
-- What `GetLatest` reads after `Replace`, of internal/infrastructure/persistence/activities.go.
use wealthfolio_connect_self.Prelude.{
  ℕ, ◌+◌, ◌≤◌, String, ◌≡◌, false, Option, some, str_eq, is_some, if◌then◌else◌,
}
use wealthfolio_connect_self.Prelude.Time.{is_zero}
use wealthfolio_connect_self.Domain.Brokerage.{Holdings}
use wealthfolio_connect_self.Domain.Error.{ok}
use wealthfolio_connect_self.Persistence.Holdings.{
  HoldingsSnapshotPo, Json, HoldingsTable, holdings_conflict_columns,
}

-- What is encoded is decoded to the same value.
unfoldable pub IsLossless : {J A : Type 0} → Json J A → Type 0
IsLossless {J} {A} json = (x : A) (j : J) → json.marshal x ≡ ok j → json.unmarshal j ≡ ok x

-- A row, with what a timestamp column keeps of its time.
abbrev pub at_precision : {J : Type 0} → (ℕ → ℕ) → HoldingsSnapshotPo J → HoldingsSnapshotPo J
at_precision kept po = record po { captured_at = kept po.captured_at }

-- The snapshots of the table: an INSERT replaces the one of its account, or fails and changes nothing.
-- A timestamp has microseconds.
pub record IsTable {J D : Type 0} (db : HoldingsTable J D) : Type 0 where
  pub row : String → D → Option (HoldingsSnapshotPo J)
  pub kept_time : ℕ → ℕ
  pub kept_time-near : (t : ℕ) → (t ≤ kept_time t + 1000) × (kept_time t ≤ t + 1000)
  pub first-row :
      (id : String) (d : D) (found : Option (HoldingsSnapshotPo J))
      → db.first id d ≡ ok found
      → found ≡ row id d
  pub create-row :
      (new : HoldingsSnapshotPo J) (d : D) (id : String)
      → row id (db.create holdings_conflict_columns new d).1 ≡ (
          if is_some (db.create holdings_conflict_columns new d).0
          then row id d
          else if str_eq new.account_id id
          then some (at_precision kept_time new)
          else row id d)

-- The time of the capture, filled in.
abbrev pub capture_time : {F : Type 0} → ℕ → Holdings F → ℕ
capture_time now h = if is_zero h.captured_at then now else h.captured_at

-- A snapshot as it is stored: with the time of its capture, and no longer partial.
abbrev pub stored_holdings : {F : Type 0} → ℕ → Holdings F → Holdings F
stored_holdings captured h = record h { captured_at = captured; partial = false }
