-- ===== src/Limits/SnapTrade/Account.antt =====
-- The limit of each account and the interval between the requests, of
-- internal/infrastructure/clients/snaptrade/limiter.go.

use mathlib.Core.List.{◌++◌}
use wealthfolio_connect_self.Prelude.{
  ℕ, ◌+◌, ◌≤◌, ◌<◌, String, ◌≡◌, ◌≢◌, refl, List, [], ◌∷◌, arith, str_eq, if◌then◌else◌, Bool-cases,
  inl, inr, eq_iff, All,
}
use wealthfolio_connect_self.Prelude.Map.{lookup, insert, lookup-insert}
use wealthfolio_connect_self.Limits.SnapTrade.{
  RateLimiter, LimitConfig, account_limit_of, new_rate_limiter, safe_capacity, effective_capacity,
  prune_window, prune, interval_wait, account_wait, wait_of, grant, attempt, Headers, observe,
  requests_of, quota_of,
}
use wealthfolio_connect_self.Limits.SnapTrade.Window.{
  count, IsTracked, later-IsTracked, prune_window-IsTracked, grant-IsTracked,
}
use wealthfolio_connect_self.Limits.SnapTrade.Budget.{
  Event, attempted, observed, next_of, granted_by, run, times, IsMonotone, effective_capacity-le,
}

unfoldable pub times_of : String → List (String × ℕ) → List ℕ
times_of id [] = []
times_of id ((of, at) ∷ log) =
    let rest = times_of id log in if str_eq of id then at ∷ rest else rest

IsInAccountBudget : String → RateLimiter → ℕ → RateLimiter → List (String × ℕ) → Type 0
IsInAccountBudget id first clock l log =
    (l.account_limit ≡ first.account_limit)
    × (l.safety_percent ≡ first.safety_percent)
    × IsTracked (safe_capacity first.account_limit first.safety_percent) clock
        (requests_of (lookup id l.account_requests)) (times_of id log)

module _ (id : String) (named : id ≢ "") (first : RateLimiter)
    (positive : 0 < first.account_limit) where
  own_attempt :
      (l : RateLimiter) (clock now : ℕ) (log : List (String × ℕ))
      → clock ≤ now
      → IsInAccountBudget id first clock l log
      → IsInAccountBudget id first now
          (next_of (attempted now id) l)
          (granted_by (attempted now id) l log)
  unfolding IsInAccountBudget next_of granted_by attempt prune grant wait_of account_wait times_of
  own_attempt l clock now log monotone h =
      let capacity = safe_capacity first.account_limit first.safety_percent in
      let state = quota_of (lookup id l.account_server) in
      let requests = requests_of (lookup id l.account_requests) in
      let pruned = insert id (prune_window requests now) l.account_requests in
      ground (
        arith,
        h,
        eq_iff id "",
        eq_iff id id,
        named,
        effective_capacity-le first.safety_percent first.account_limit state.limit positive,
        lookup-insert id id (prune_window requests now) l.account_requests,
        lookup-insert id id (prune_window requests now ++ now ∷ []) pruned,
        prune_window-IsTracked capacity clock now requests (times_of id log) monotone h.2,
        grant-IsTracked capacity clock now requests (times_of id log) monotone h.2
            (effective_capacity l.safety_percent l.account_limit state.limit),
      )

  other_attempt :
      (l : RateLimiter) (clock now : ℕ) (other : String) (log : List (String × ℕ))
      → other ≢ id
      → clock ≤ now
      → IsInAccountBudget id first clock l log
      → IsInAccountBudget id first now
          (next_of (attempted now other) l)
          (granted_by (attempted now other) l log)
  unfolding IsInAccountBudget next_of granted_by attempt prune grant times_of
  other_attempt l clock now other log differs monotone h =
      let capacity = safe_capacity first.account_limit first.safety_percent in
      let requests = requests_of (lookup other l.account_requests) in
      let pruned = insert other (prune_window requests now) l.account_requests in
      ground (
        arith,
        h,
        eq_iff other "",
        eq_iff other id,
        differs,
        lookup-insert other id (prune_window requests now) l.account_requests,
        lookup-insert other id (requests_of (lookup other pruned) ++ now ∷ []) pruned,
        later-IsTracked capacity clock now (requests_of (lookup id l.account_requests))
            (times_of id log) monotone h.2,
      )

  attempted-IsInAccountBudget :
      (l : RateLimiter) (clock now : ℕ) (other : String) (log : List (String × ℕ))
      → clock ≤ now
      → IsInAccountBudget id first clock l log
      → IsInAccountBudget id first now
          (next_of (attempted now other) l)
          (granted_by (attempted now other) l log)
  attempted-IsInAccountBudget l clock now other log monotone h =
      elim (Bool-cases (str_eq other id)) [
        | inl same ↦
            let path : other ≡ id = ground (arith, eq_iff other id, same) in
            rw path (own_attempt l clock now log monotone h)
        | inr differs ↦
            other_attempt l clock now other log (ground (arith, eq_iff other id, differs)) monotone
              h
      ]

  observed-IsInAccountBudget :
      (l : RateLimiter) (clock now : ℕ) (headers : Headers) (of : String) (log : List (String × ℕ))
      → clock ≤ now
      → IsInAccountBudget id first clock l log
      → IsInAccountBudget id first now (next_of (observed now headers of) l) log
  unfolding IsInAccountBudget next_of observe
  observed-IsInAccountBudget l clock now headers of log monotone h =
      let capacity = safe_capacity first.account_limit first.safety_percent in
      ground (
        arith,
        h,
        later-IsTracked capacity clock now (requests_of (lookup id l.account_requests))
            (times_of id log) monotone h.2,
      )

  run-IsInAccountBudget :
      (l : RateLimiter) (clock : ℕ) (es : List Event) (log : List (String × ℕ))
      → IsMonotone clock es
      → IsInAccountBudget id first clock l log
      → (t : ℕ)
      → count t (times_of id (run es l log))
        ≤ safe_capacity first.account_limit first.safety_percent
  unfolding run IsInAccountBudget granted_by
  run-IsInAccountBudget l clock [] log m h t = h.2.within t
  run-IsInAccountBudget l clock (attempted now other ∷ es) log m h t =
      run-IsInAccountBudget (next_of (attempted now other) l) now es
        (granted_by (attempted now other) l log) m.1
        (attempted-IsInAccountBudget l clock now other log m.0 h) t
  run-IsInAccountBudget l clock (observed now headers of ∷ es) log m h t =
      run-IsInAccountBudget (next_of (observed now headers of) l) now es log m.1
        (observed-IsInAccountBudget l clock now headers of log m.0 h) t

-- The most requests that an account gets in a minute under a configuration.
pub account_budget : LimitConfig → ℕ
account_budget cfg = safe_capacity (account_limit_of cfg) cfg.safety_percent

-- With a limit for the accounts, as in personal mode, no minute of a run of a new limiter has more
-- requests for one account than the safe share of that limit, whatever the other callers and the
-- headers from the server are.
pub run-InAccountBudget :
    (cfg : LimitConfig) (es : List Event) (id : String) (t : ℕ)
    → id ≢ ""
    → 0 < account_limit_of cfg
    → IsMonotone 0 es
    → count t (times_of id (run es (new_rate_limiter cfg) [])) ≤ account_budget cfg
unfolding IsInAccountBudget new_rate_limiter times_of count account_budget lookup
run-InAccountBudget cfg es id t named positive m =
    run-IsInAccountBudget id named (new_rate_limiter cfg) positive (new_rate_limiter cfg) 0 es [] m
      (refl, refl, record { sorted = tt; past = tt; within = λ u. omega arith; kept = λ u h. refl })
      t

-- Each request is `interval` after the one before it; the newest is first.
unfoldable pub IsSpaced : ℕ → List ℕ → Type 0
IsSpaced interval [] = Unit
IsSpaced interval (x ∷ []) = Unit
IsSpaced interval (x ∷ y ∷ rest) = (y + interval ≤ x) × IsSpaced interval (y ∷ rest)

abbrev newest : List ℕ → ℕ
newest [] = 0
newest (x ∷ rest) = x

IsPaced : ℕ → ℕ → RateLimiter → List (String × ℕ) → Type 0
IsPaced interval clock l log =
    (0 < clock)
    × (l.minimum_interval ≡ interval)
    × (l.last_request ≡ newest (times log))
    × All (λ x. 0 < x) (times log)
    × IsSpaced interval (times log)

attempted-IsPaced :
    (interval : ℕ) (l : RateLimiter) (clock now : ℕ) (id : String) (log : List (String × ℕ))
    → clock ≤ now
    → IsPaced interval clock l log
    → IsPaced interval now (next_of (attempted now id) l) (granted_by (attempted now id) l log)
unfolding IsPaced next_of granted_by attempt prune grant wait_of interval_wait times IsSpaced
attempted-IsPaced interval l clock now id [] m h = ground (arith, h)
attempted-IsPaced interval l clock now id ((of, at) ∷ log) m h = ground (arith, h)

observed-IsPaced :
    (interval : ℕ) (l : RateLimiter) (clock now : ℕ) (headers : Headers) (id : String)
    (log : List (String × ℕ))
    → clock ≤ now
    → IsPaced interval clock l log
    → IsPaced interval now (next_of (observed now headers id) l) log
unfolding IsPaced next_of observe
observed-IsPaced interval l clock now headers id log m h = ground (arith, h)

run-IsPaced :
    (interval : ℕ) (l : RateLimiter) (clock : ℕ) (es : List Event) (log : List (String × ℕ))
    → IsMonotone clock es
    → IsPaced interval clock l log
    → IsSpaced interval (times (run es l log))
unfolding run IsPaced granted_by
run-IsPaced interval l clock [] log m h = h.4
run-IsPaced interval l clock (attempted now id ∷ es) log m h =
    run-IsPaced interval (next_of (attempted now id) l) now es (granted_by (attempted now id) l log)
      m.1 (attempted-IsPaced interval l clock now id log m.0 h)
run-IsPaced interval l clock (observed now headers id ∷ es) log m h =
    run-IsPaced interval (next_of (observed now headers id) l) now es log m.1
      (observed-IsPaced interval l clock now headers id log m.0 h)

-- In every run of a new limiter, with a clock that does not go back and is past the zero time, each
-- request is granted the configured interval after the one before it.
pub run-Spaced :
    (cfg : LimitConfig) (es : List Event)
    → IsMonotone 1 es
    → IsSpaced cfg.request_interval (times (run es (new_rate_limiter cfg) []))
unfolding IsPaced new_rate_limiter times IsSpaced
run-Spaced cfg es m =
    run-IsPaced cfg.request_interval (new_rate_limiter cfg) 1 es [] m
      (omega arith, refl, refl, tt, tt)
