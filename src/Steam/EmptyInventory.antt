-- ===== src/Steam/EmptyInventory.antt =====
-- `confirmEmptyInventory` of internal/infrastructure/clients/steam/reconcile.go, and the probe that
-- `Fetch` writes after an empty inventory that is not confirmed.
use wealthfolio_connect_self.Prelude.{
  ℕ, ◌≤◌, ◌/◌, ◌*◌, Bool-cases, Option-cases, String, Bool, true, false, not, ◌&&◌, Option, none,
  some, is_empty, ◌≡◌, refl, arith, inl, inr, if◌then◌else◌,
}
use wealthfolio_connect_self.Prelude.Time.{second, is_zero, after}
use wealthfolio_connect_self.Domain.Error.{
  is_not_found, wrapped, Fetched, ok, failed, Fetched-cases,
}
use wealthfolio_connect_self.Steam.Cursors.{
  SyncCursor, CursorJson, cursor_scope_empty_probe, steam_cursor_scope,
}
use wealthfolio_connect_self.Persistence.Steam.Snapshots.{SteamInventorySnapshot}

module _ (json : CursorJson) (steam_id : String) where
  abbrev pub not_before : ℕ → Option ℕ → Bool
  not_before taken_at none = false
  not_before taken_at (some t) = not (is_zero t) && not (after taken_at t)

  -- A probe that is a time, and not before the snapshot.
  unfoldable pub is_second_sighting : ℕ → Fetched SyncCursor → Bool
  is_second_sighting taken_at (failed e) = false
  is_second_sighting taken_at (ok probe) = not_before taken_at (json.parse_rfc3339 probe.position)

  abbrev pub probed : ℕ → Option (String → Fetched SyncCursor) → Bool
  probed taken_at none = false
  probed taken_at (some get) =
      is_second_sighting taken_at (get (steam_cursor_scope cursor_scope_empty_probe steam_id))

  -- On what `LatestSnapshot` returned; `none` without a store.
  unfoldable pub confirm_empty_inventory :
      Option (Fetched SteamInventorySnapshot) → Option (String → Fetched SyncCursor) → Fetched Bool
  confirm_empty_inventory none get = ok true
  confirm_empty_inventory (some (failed e)) get =
      if is_not_found e then ok true else failed (wrapped "steam: cannot confirm empty inventory" e)
  confirm_empty_inventory (some (ok prev)) get =
      if is_empty prev.assets then ok true else ok (probed prev.taken_at get)

  -- The cursor of an empty sighting.
  unfoldable pub empty_probe : ℕ → SyncCursor
  empty_probe now = record {
    scope = steam_cursor_scope cursor_scope_empty_probe steam_id;
    position = json.format_rfc3339 now;
    complete = false;
    updated_at = now;
  }

  -- An empty inventory clears known assets only when a probe says that an earlier sighting came no
  -- earlier than the last complete snapshot, and the probe was read.
  pub confirm_empty_inventory-Seen :
      (prev : SteamInventorySnapshot) (read : String → Fetched SyncCursor)
      → is_empty prev.assets ≡ false
      → confirm_empty_inventory (some (ok prev)) (some read) ≡ ok true
      → (probe : SyncCursor) × (t : ℕ) × (read
            (steam_cursor_scope cursor_scope_empty_probe steam_id)
          ≡ ok probe)
        × (json.parse_rfc3339 probe.position ≡ some t)
        × (prev.taken_at ≤ t)
  unfolding confirm_empty_inventory is_second_sighting
  confirm_empty_inventory-Seen prev read held h =
      elim (Fetched-cases (read (steam_cursor_scope cursor_scope_empty_probe steam_id))) [
        | inr (e, missed) ↦ ground (arith, held, h, missed)
        | inl (probe, seen) ↦ elim (Option-cases (json.parse_rfc3339 probe.position)) [
          | inl garbled ↦ ground (arith, held, h, seen, garbled)
          | inr (t, at) ↦ (probe, t, seen, at, ground (arith, held, h, seen, at))
        ]
      ]

  is_second_sighting_of :
      (taken_at t : ℕ) (probe : SyncCursor)
      → json.parse_rfc3339 probe.position ≡ some t
      → is_zero t ≡ false
      → after taken_at t ≡ false
      → is_second_sighting taken_at (ok probe) ≡ true
  unfolding is_second_sighting
  is_second_sighting_of taken_at t probe parsed positive in_order =
      rw (parsed, positive, in_order) refl

  -- A second sighting is confirmed: the probe of the first one, of the time `then_`, is still the one
  -- that is read, the times of the probes are those of their seconds, and no complete snapshot was
  -- taken since that second.
  pub confirm_empty_inventory-second :
      (prev : SteamInventorySnapshot) (read : String → Fetched SyncCursor) (then_ : ℕ)
      → read (empty_probe then_).scope ≡ ok (empty_probe then_)
      → json.parse_rfc3339 (json.format_rfc3339 then_) ≡ some (then_ / second * second)
      → second ≤ then_
      → prev.taken_at ≤ then_ / second * second
      → confirm_empty_inventory (some (ok prev)) (some read) ≡ ok true
  unfolding confirm_empty_inventory is_second_sighting empty_probe
  confirm_empty_inventory-second prev read then_ stored parsed dated before =
      elim (Bool-cases (is_empty prev.assets)) [
        | inl cleared ↦ rw cleared refl
        | inr held ↦
            let positive : is_zero (then_ / second * second) ≡ false = ground (arith, dated) in
            let in_order : after prev.taken_at (then_ / second * second) ≡ false =
              ground (arith, before) in
            let sighted : is_second_sighting prev.taken_at (ok (empty_probe then_)) ≡ true =
              rw (parsed, positive, in_order) refl in
            rw (held, stored, sighted) refl
      ]
