-- ===== src/Limits/SnapTrade/Retry.antt =====
-- The loop of `wait` of internal/infrastructure/clients/snaptrade/limiter.go.

use wealthfolio_connect_self.Prelude.{
  ℕ, suc, Option-cases, inl, inr, ◌+◌, ◌-◌, ◌≤◌, ◌<◌, String, ◌≡◌, Bool, true, false, Option, some,
  List, arith, eq_iff,
}
use wealthfolio_connect_self.Prelude.Map.{lookup, lookup-insert}
use wealthfolio_connect_self.Limits.SnapTrade.{
  QuotaState, RateLimiter, effective_capacity, prune_window, local_window_wait, server_quota_wait,
  requests_of, quota_of, prune, interval_wait, global_wait, account_wait, wait_of, attempt, Waited,
  unfinished, wait,
}
use wealthfolio_connect_self.Limits.SnapTrade.Window.{local_window_wait-prune_window}

module _ (now slept : ℕ) where
  -- A waiting time runs out.
  local_window_wait-later :
      (xs : List ℕ) (capacity : ℕ)
      → local_window_wait xs capacity now ≤ slept
      → local_window_wait (prune_window xs (now + slept)) capacity (now + slept) ≡ 0
  unfolding local_window_wait
  local_window_wait-later xs capacity h =
      ground (arith, local_window_wait-prune_window xs capacity (now + slept))

  server_quota_wait-later :
      (state : QuotaState) (percent : ℕ)
      → server_quota_wait state percent now ≤ slept
      → server_quota_wait state percent (now + slept) ≡ 0
  unfolding server_quota_wait
  server_quota_wait-later state percent h = ground arith

  wait_of-later :
      (id : String) (l : RateLimiter)
      → wait_of now id l ≤ slept
      → wait_of (now + slept) id (prune (now + slept) id l) ≡ 0
  unfolding wait_of interval_wait global_wait account_wait prune
  wait_of-later id l h =
      let state = quota_of (lookup id l.account_server) in
      ground (
        arith,
        h,
        eq_iff id id,
        eq_iff id "",
        local_window_wait-later l.global_requests
            (effective_capacity l.safety_percent l.global_limit l.global_server.limit),
        local_window_wait-later (requests_of (lookup id l.account_requests))
            (effective_capacity l.safety_percent l.account_limit state.limit),
        server_quota_wait-later l.global_server l.safety_percent,
        server_quota_wait-later state l.safety_percent,
        lookup-insert id id
            (prune_window (requests_of (lookup id l.account_requests)) (now + slept))
            l.account_requests,
      )

attempt-later :
    (now woken : ℕ) (id : String) (l : RateLimiter)
    → 0 < (attempt now id l).0
    → now + (attempt now id l).0 ≤ woken
    → (attempt woken id (attempt now id l).1).0 ≡ 0
unfolding attempt
attempt-later now woken id l waits h =
    let slept : woken ≡ now + (woken - now) = omega arith in
    rw slept (ground (arith, wait_of-later now (woken - now) id (prune now id l)))

abbrev pub ended : Waited → Bool
ended unfinished = false
ended _ = true

-- For a caller that is alone, and sleeps that last as long as they are asked to or are cut short,
-- the loop of `wait` ends after two turns at most, so after one sleep.
pub wait-Ended :
    (sleep : ℕ → ℕ → Option ℕ) (now fuel : ℕ) (id : String) (l : RateLimiter)
    → ((at d woken : ℕ) → sleep at d ≡ some woken → at + d ≤ woken)
    → ended (wait (suc (suc fuel)) sleep now id l).0 ≡ true
unfolding wait
wait-Ended sleep now fuel id l lasts = elim (Option-cases (sleep now (attempt now id l).0)) [
  | inl cut ↦ ground (arith, cut)
  | inr (woken, slept) ↦
      ground
        (arith, slept, lasts now (attempt now id l).0 woken slept, attempt-later now woken id l)
]
