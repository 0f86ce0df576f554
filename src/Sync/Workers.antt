-- ===== src/Sync/Workers.antt =====
-- `beginClient` and `endClient` of internal/application/sync/service.go, as the scheduler's loops and
-- `RunOnce` call them from several goroutines: each holds `runningMu` throughout, so a run of the
-- engine is a sequence of these steps in some order.
use wealthfolio_connect_self.Prelude.{
  ℕ, String, ◌≡◌, ◌≢◌, ◌↔◌, ◌⊎◌, ap, sym, ◌∙◌, Bool, true, false, none, some, [], arith, eq_iff,
  str_eq, ◌==◌, if◌then◌else◌, Bool-cases, inl, inr,
}
use wealthfolio_connect_self.Prelude.Map.{Map, lookup, insert, erase, lookup-insert, lookup-erase}

-- `s.running[id]`: an absent key reads as false.
unfoldable pub is_running : String → Map Bool → Bool
is_running id m = elim (lookup id m) [ none ↦ false | some b ↦ b ]

unfoldable pub begin_client : String → Map Bool → Bool × Map Bool
begin_client id m = if is_running id m then (false, m) else (true, insert id true m)

unfoldable pub end_client : String → Map Bool → Map Bool
end_client id m = erase id m

is_running-begin_client :
    (id j : String) (m : Map Bool)
    → is_running j (begin_client id m).1 ≡ (if str_eq id j then true else is_running j m)
unfolding begin_client is_running
is_running-begin_client id j m = ground (arith, lookup-insert id j true m, eq_iff id j)

is_running-end_client :
    (id j : String) (m : Map Bool)
    → is_running j (end_client id m) ≡ (if str_eq id j then false else is_running j m)
unfolding end_client is_running
is_running-end_client id j m = ground (arith, lookup-erase id j m, eq_iff id j)

-- What a goroutine is doing: a client's run is between its `beginClient` and its `endClient`.
pub data Phase : Type 0 where
  idle : Phase
  syncing : String → Phase

pub record Engine : Type 0 where
  pub running : Map Bool
  pub phase : ℕ → Phase

abbrev pub set_phase : (ℕ → Phase) → ℕ → Phase → ℕ → Phase
set_phase f w p v = if v == w then p else f v

-- The state after `runClient` of worker `w` has called `beginClient`.
abbrev pub begun : Engine → ℕ → String → Engine
begun s w id =
    let (entered, m) = begin_client id s.running in
    record { running = m; phase = if entered then set_phase s.phase w (syncing id) else s.phase }

abbrev pub ended : Engine → ℕ → String → Engine
ended s w id = record { running = end_client id s.running; phase = set_phase s.phase w idle }

pub data Step (s : Engine) : Engine → Type 0 where
  begins : (w : ℕ) (id : String) → s.phase w ≡ idle → Step s (begun s w id)
  ends : (w : ℕ) (id : String) → s.phase w ≡ syncing id → Step s (ended s w id)

abbrev pub start : Engine
start = record { running = []; phase = λ w. idle }

pub data Reach : Engine → Type 0 where
  here : Reach start
  later : {s t : Engine} → Reach s → Step s t → Reach t

-- The flags are those of the clients that some worker syncs, each by one worker.
pub record Inv (s : Engine) : Type 0 where
  pub flagged : (w : ℕ) (id : String) → s.phase w ≡ syncing id → is_running id s.running ≡ true
  pub unique : (w v : ℕ) (id : String) → s.phase w ≡ syncing id → s.phase v ≡ syncing id → w ≡ v
  pub owned : (id : String) → is_running id s.running ≡ true → (w : ℕ) × (s.phase w ≡ syncing id)

Inv-start : Inv start
unfolding is_running lookup
Inv-start = record { flagged = λ w id h. cc; unique = λ w v id h k. cc; owned = λ id h. cc }

-- The state after a `beginClient` that entered, and what its flags are.
module _ (s : Engine) (w : ℕ) (id : String) (free : s.phase w ≡ idle)
    (unset : is_running id s.running ≡ false) (v : Inv s) where
  abbrev entered : Engine
  entered = record { running = insert id true s.running; phase = set_phase s.phase w (syncing id) }

  flag_of :
      (j : String)
      → is_running j entered.running ≡ (if str_eq id j then true else is_running j s.running)
  unfolding is_running
  flag_of j = ground (arith, lookup-insert id j true s.running)

  phase_of :
      (u : ℕ) (j : String)
      → entered.phase u ≡ syncing j
      → ((u ≡ w) × (j ≡ id)) ⊎ ((u ≢ w) × (s.phase u ≡ syncing j))
  phase_of u j h = ground arith

  other_client : (u : ℕ) (j : String) → s.phase u ≡ syncing j → j ≢ id
  other_client u j h e = cc (v.flagged u j h, unset, ap (λ k. is_running k s.running) e)

  entered-Inv : Inv entered
  entered-Inv = record {
    flagged = λ u j h. ground (arith, flag_of j, eq_iff id j, phase_of u j h, v.flagged u j);
    unique = λ u x j h k.
        ground (
          arith,
          phase_of u j h,
          phase_of x j k,
          v.unique u x j,
          other_client u j,
          other_client x j,
        );
    owned = λ j h. elim (Bool-cases (str_eq id j)) [
      | inl e ↦ (w, ground (arith, eq_iff id j))
      | inr e ↦
          let (x, at_x) = v.owned j (sym (flag_of j ∙ rw e) ∙ h) in (x, ground (arith, eq_iff id j))
    ];
  }

begun-Inv : (s : Engine) (w : ℕ) (id : String) → s.phase w ≡ idle → Inv s → Inv (begun s w id)
unfolding begin_client
begun-Inv s w id free v = elim (Bool-cases (is_running id s.running)) [
  | inl e ↦ rw (e, begin_client) v
  | inr e ↦ rw (e, begin_client) (entered-Inv s w id free e v)
]

module _ (s : Engine) (w : ℕ) (id : String) (busy : s.phase w ≡ syncing id) (v : Inv s) where
  left_phase :
      (u : ℕ) (j : String)
      → (ended s w id).phase u ≡ syncing j
      → (u ≢ w) × (s.phase u ≡ syncing j) × (j ≢ id)
  left_phase u j h = ground (arith, v.unique u w j)

  ended-Inv : Inv (ended s w id)
  ended-Inv = record {
    flagged = λ u j h.
        ground (
          arith,
          is_running-end_client id j s.running,
          eq_iff id j,
          left_phase u j h,
          v.flagged u j,
        );
    unique = λ u x j h k. v.unique u x j (left_phase u j h).1 (left_phase x j k).1;
    owned = λ j h.
        let (x, at_x) =
          v.owned j (ground (arith, is_running-end_client id j s.running, eq_iff id j)) in
        (x, ground (arith, is_running-end_client id j s.running, eq_iff id j));
  }

Step-Inv : {s t : Engine} → Step s t → Inv s → Inv t
Step-Inv {s} (begins w id free) v = begun-Inv s w id free v
Step-Inv {s} (ends w id busy) v = ended-Inv s w id busy v

Reach-Inv : {s : Engine} → Reach s → Inv s
Reach-Inv here = Inv-start
Reach-Inv (later r st) = Step-Inv st (Reach-Inv r)

-- However the goroutines interleave, a client is synced by at most one of them at a time, and a
-- `beginClient` is refused exactly while one is syncing that client, so none is locked out.
pub one_run_per_client :
    {s : Engine}
    → Reach s
    → (id : String)
    → ((w v : ℕ) → s.phase w ≡ syncing id → s.phase v ≡ syncing id → w ≡ v)
      × (((begin_client id s.running).0 ≡ false) ↔ ((w : ℕ) × (s.phase w ≡ syncing id)))
unfolding begin_client
one_run_per_client {s} r id =
    let v = Reach-Inv r in
    (
      (λ w u. v.unique w u id),
      ((λ h. v.owned id (ground arith)), λ h. ground (arith, v.flagged h.0 id h.1)),
    )
