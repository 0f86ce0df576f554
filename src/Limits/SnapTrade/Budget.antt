-- ===== src/Limits/SnapTrade/Budget.antt =====
-- `wait` of internal/infrastructure/clients/snaptrade/limiter.go under any sequence of callers, and
-- its limit for all requests.

use wealthfolio_connect_self.Prelude.{
  ℕ, zero, suc, ◌*◌, ◌≤◌, ◌<◌, String, ◌≡◌, refl, List, [], ◌∷◌, arith, ◌==◌, if◌then◌else◌,
}
use wealthfolio_connect_self.Limits.SnapTrade.{
  RateLimiter, LimitConfig, global_limit_of, new_rate_limiter, safe_capacity, effective_capacity,
  prune, global_wait, wait_of, grant, attempt, Headers, observe,
}
use wealthfolio_connect_self.Limits.SnapTrade.Window.{
  count, IsTracked, later-IsTracked, prune_window-IsTracked, grant-IsTracked,
}

-- What happens to a limiter: a turn of the loop of some `wait`, or the headers of a response.
pub data Event : Type 0 where
  attempted : ℕ → String → Event
  observed : ℕ → Headers → String → Event

abbrev pub time_of : Event → ℕ
time_of (attempted now id) = now
time_of (observed now headers id) = now

unfoldable pub next_of : Event → RateLimiter → RateLimiter
next_of (attempted now id) l = (attempt now id l).1
next_of (observed now headers id) l = observe now headers id l

-- The requests that were granted, newest first.
unfoldable pub granted_by : Event → RateLimiter → List (String × ℕ) → List (String × ℕ)
granted_by (attempted now id) l log = if (attempt now id l).0 == 0 then (id, now) ∷ log else log
granted_by (observed now headers id) l log = log

unfoldable pub run : List Event → RateLimiter → List (String × ℕ) → List (String × ℕ)
run [] l log = log
run (e ∷ es) l log = run es (next_of e l) (granted_by e l log)

unfoldable pub times : List (String × ℕ) → List ℕ
times [] = []
times ((id, at) ∷ log) = at ∷ times log

abbrev pub IsMonotone : ℕ → List Event → Type 0
IsMonotone clock [] = Unit
IsMonotone clock (e ∷ es) = (clock ≤ time_of e) × IsMonotone (time_of e) es

pub mul-le : (a b p : ℕ) → a ≤ b → a * p ≤ b * p
mul-le a b zero h = omega arith
mul-le a b (suc p) h = omega (arith, mul-le a b p h)

-- A server's limit lowers the capacity, and never raises it.
pub effective_capacity-le :
    (percent locally server : ℕ)
    → 0 < locally
    → (0 < effective_capacity percent locally server)
      × (effective_capacity percent locally server ≤ safe_capacity locally percent)
unfolding effective_capacity safe_capacity
effective_capacity-le percent locally server h = ground (arith, mul-le server locally percent)

IsInBudget : RateLimiter → ℕ → RateLimiter → List (String × ℕ) → Type 0
IsInBudget first clock l log =
    (l.global_limit ≡ first.global_limit)
    × (l.safety_percent ≡ first.safety_percent)
    × IsTracked (safe_capacity first.global_limit first.safety_percent) clock l.global_requests
        (times log)

attempted-IsInBudget :
    (first l : RateLimiter) (clock now : ℕ) (id : String) (log : List (String × ℕ))
    → 0 < first.global_limit
    → clock ≤ now
    → IsInBudget first clock l log
    → IsInBudget first now (next_of (attempted now id) l) (granted_by (attempted now id) l log)
unfolding IsInBudget next_of granted_by attempt prune grant wait_of global_wait times
attempted-IsInBudget first l clock now id log positive monotone h =
    let capacity = safe_capacity first.global_limit first.safety_percent in
    let effective = effective_capacity l.safety_percent l.global_limit l.global_server.limit in
    let bounds =
      effective_capacity-le first.safety_percent first.global_limit l.global_server.limit
        positive in
    ground (
      arith,
      h,
      bounds,
      prune_window-IsTracked capacity clock now l.global_requests (times log) monotone h.2,
      grant-IsTracked capacity clock now l.global_requests (times log) monotone h.2 effective,
    )

observed-IsInBudget :
    (first l : RateLimiter) (clock now : ℕ) (headers : Headers) (id : String)
    (log : List (String × ℕ))
    → clock ≤ now
    → IsInBudget first clock l log
    → IsInBudget first now (next_of (observed now headers id) l) log
unfolding IsInBudget next_of observe
observed-IsInBudget first l clock now headers id log monotone h =
    let capacity = safe_capacity first.global_limit first.safety_percent in
    ground (arith, h, later-IsTracked capacity clock now l.global_requests (times log) monotone h.2)

run-IsInBudget :
    (first l : RateLimiter) (clock : ℕ) (es : List Event) (log : List (String × ℕ))
    → 0 < first.global_limit
    → IsMonotone clock es
    → IsInBudget first clock l log
    → (t : ℕ)
    → count t (times (run es l log)) ≤ safe_capacity first.global_limit first.safety_percent
unfolding run IsInBudget granted_by
run-IsInBudget first l clock [] log positive m h t = h.2.within t
run-IsInBudget first l clock (attempted now id ∷ es) log positive m h t =
    run-IsInBudget first (next_of (attempted now id) l) now es (granted_by (attempted now id) l log)
      positive m.1 (attempted-IsInBudget first l clock now id log positive m.0 h) t
run-IsInBudget first l clock (observed now headers id ∷ es) log positive m h t =
    run-IsInBudget first (next_of (observed now headers id) l) now es log positive m.1
      (observed-IsInBudget first l clock now headers id log m.0 h) t

global_limit-Bounded : (cfg : LimitConfig) → (0 < global_limit_of cfg) × (global_limit_of cfg ≤ 250)
unfolding global_limit_of
global_limit-Bounded cfg = ground arith

-- In every run of a new limiter, with any callers and any headers from the server and a clock that
-- does not go back, no minute has more requests than the safe share of the configured limit, and
-- never more than 237 with a safety percentage of 95 or less.
pub run-InBudget :
    (cfg : LimitConfig) (es : List Event) (t : ℕ)
    → cfg.safety_percent ≤ 95
    → IsMonotone 0 es
    → (count t (times (run es (new_rate_limiter cfg) []))
        ≤ safe_capacity (global_limit_of cfg) cfg.safety_percent)
      × (count t (times (run es (new_rate_limiter cfg) [])) ≤ 237)
unfolding IsInBudget new_rate_limiter times count safe_capacity
run-InBudget cfg es t percent m =
    let bounded =
      run-IsInBudget (new_rate_limiter cfg) (new_rate_limiter cfg) 0 es []
        (global_limit-Bounded cfg).0 m
        (
          refl,
          refl,
          record { sorted = tt; past = tt; within = λ u. omega arith; kept = λ u h. refl },
        )
        t in
    ground (
      arith,
      bounded,
      global_limit-Bounded cfg,
      mul-le (global_limit_of cfg) 250 cfg.safety_percent,
    )
