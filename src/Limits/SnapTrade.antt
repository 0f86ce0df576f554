-- ===== src/Limits/SnapTrade.antt =====
-- `rateLimiter` of internal/infrastructure/clients/snaptrade/limiter.go. Each operation holds the
-- mutex, and the wait of a caller does not, so what happens to a limiter is a sequence of attempts
-- and observations of any callers.
pub mod Window
pub mod Budget
pub mod Account
pub mod Retry
use Prim.Native.Nat.{max}
use mathlib.Core.List.{◌++◌}
use wealthfolio_connect_self.Prelude.{
  ℕ, zero, suc, ◌+◌, ◌-◌, ◌*◌, ◌/◌, String, ◌≡◌, refl, Bool, true, false, not, ◌&&◌, ◌||◌, Option,
  none, some, List, [], ◌∷◌, ltb, leb, ◌==◌, str_eq, length, get_elem?, if◌then◌else◌,
}
use wealthfolio_connect_self.Prelude.Int.{ℤ, pos, negsuc}
use wealthfolio_connect_self.Prelude.Map.{Map, lookup, insert}
use wealthfolio_connect_self.Prelude.Time.{second, minute, is_zero, after}

pub record QuotaState : Type 0 where
  pub limit : ℕ
  pub remaining : ℕ
  pub reset_at : ℕ

pub record RateLimiter : Type 0 where
  pub minimum_interval : ℕ
  pub safety_percent : ℕ
  pub global_limit : ℕ
  pub account_limit : ℕ
  pub last_request : ℕ
  pub global_requests : List ℕ
  pub account_requests : Map (List ℕ)
  pub global_server : QuotaState
  pub account_server : Map QuotaState

-- The limits of `config.SnapTradeConfig`, which `validateSnapTrade` keeps from being negative.
pub record LimitConfig : Type 0 where
  pub personal : Bool
  pub request_interval : ℕ
  pub requests_per_minute : ℕ
  pub account_requests_pm : ℕ
  pub safety_percent : ℕ

abbrev pub no_quota : QuotaState
no_quota = record { limit = 0; remaining = 0; reset_at = 0 }

-- The request limits of a configuration: the upstream limit, lowered by what is configured.
unfoldable pub global_limit_of : LimitConfig → ℕ
global_limit_of cfg =
    if ltb 0 cfg.requests_per_minute && ltb cfg.requests_per_minute 250
    then cfg.requests_per_minute
    else 250

unfoldable pub account_limit_of : LimitConfig → ℕ
account_limit_of cfg =
    let account_limit = if cfg.personal then 10 else 0 in
    if ltb 0 cfg.account_requests_pm
      && (account_limit == 0 || ltb cfg.account_requests_pm account_limit)
    then cfg.account_requests_pm
    else account_limit

unfoldable pub new_rate_limiter : LimitConfig → RateLimiter
new_rate_limiter cfg = record {
  minimum_interval = cfg.request_interval;
  safety_percent = cfg.safety_percent;
  global_limit = global_limit_of cfg;
  account_limit = account_limit_of cfg;
  last_request = 0;
  global_requests = [];
  account_requests = [];
  global_server = no_quota;
  account_server = [];
}

-- `limit * percent` stays below 2^53, so the division in `float64` and `Floor` is that of ℕ.
unfoldable pub safe_capacity : ℕ → ℕ → ℕ
safe_capacity limit percent =
    let capacity = limit * percent / 100 in if ltb capacity 1 then 1 else capacity

unfoldable pub effective_capacity : ℕ → ℕ → ℕ → ℕ
effective_capacity percent locally server =
    let limit = if ltb 0 server && (locally == 0 || ltb server locally) then server else locally in
    if limit == 0 then 0 else safe_capacity limit percent

-- The waits are read through `maxDuration(0, _)` alone, so one that is negative is 0 here.
unfoldable pub local_window_wait : List ℕ → ℕ → ℕ → ℕ
local_window_wait requests capacity now =
    if capacity == 0 || ltb (length requests) capacity
    then 0
    else elim (get_elem? requests (length requests - capacity)) [
      | none ↦ 0
      | some at ↦ at + minute - now
    ]

unfoldable pub server_quota_wait : QuotaState → ℕ → ℕ → ℕ
server_quota_wait state percent now =
    if state.limit == 0 || is_zero state.reset_at || not (after state.reset_at now)
    then 0
    else if ltb (state.limit - safe_capacity state.limit percent) state.remaining
    then 0
    else state.reset_at - now

-- `pruneWindow`: without the requests in front that are a minute old.
unfoldable pub prune_window : List ℕ → ℕ → List ℕ
prune_window [] now = []
prune_window (at ∷ rest) now =
    let later = prune_window rest now in if ltb now (at + minute) then at ∷ rest else later

abbrev pub requests_of : Option (List ℕ) → List ℕ
requests_of none = []
requests_of (some requests) = requests

abbrev pub quota_of : Option QuotaState → QuotaState
quota_of none = no_quota
quota_of (some state) = state

-- The requests that are still in their window: what the loop of `wait` starts with.
unfoldable pub prune : ℕ → String → RateLimiter → RateLimiter
prune now id l = record l {
  global_requests = prune_window l.global_requests now;
  account_requests =
      if str_eq id ""
      then l.account_requests
      else insert id (prune_window (requests_of (lookup id l.account_requests)) now)
          l.account_requests;
}

unfoldable pub interval_wait : ℕ → RateLimiter → ℕ
interval_wait now l =
    if is_zero l.last_request then 0 else l.minimum_interval + l.last_request - now

unfoldable pub global_wait : ℕ → RateLimiter → ℕ
global_wait now l =
    max
      (local_window_wait l.global_requests
        (effective_capacity l.safety_percent l.global_limit l.global_server.limit) now)
      (server_quota_wait l.global_server l.safety_percent now)

unfoldable pub account_wait : ℕ → String → RateLimiter → ℕ
account_wait now id l =
    if str_eq id ""
    then 0
    else let state = quota_of (lookup id l.account_server) in
      max
        (local_window_wait (requests_of (lookup id l.account_requests))
          (effective_capacity l.safety_percent l.account_limit state.limit) now)
        (server_quota_wait state l.safety_percent now)

unfoldable pub wait_of : ℕ → String → RateLimiter → ℕ
wait_of now id l = max (max (interval_wait now l) (global_wait now l)) (account_wait now id l)

-- A granted request, which the limiter notes.
unfoldable pub grant : ℕ → String → RateLimiter → RateLimiter
grant now id l = record l {
  last_request = now;
  global_requests = l.global_requests ++ now ∷ [];
  account_requests =
      if not (str_eq id "")
        && (ltb 0 l.account_limit || ltb 0 (quota_of (lookup id l.account_server)).limit)
      then insert id (requests_of (lookup id l.account_requests) ++ now ∷ []) l.account_requests
      else l.account_requests;
}

-- One turn of the loop of `wait`: how long to sleep before the next one, 0 when the request is
-- granted.
unfoldable pub attempt : ℕ → String → RateLimiter → ℕ × RateLimiter
attempt now id l =
    let l' = prune now id l in
    let wait = wait_of now id l' in if wait == 0 then (0, grant now id l') else (wait, l')

-- How `wait` ends: with the time of the granted request, with the error of a sleep that the context
-- cut short, or not within the fuel.
pub data Waited : Type 0 where
  granted : ℕ → Waited
  interrupted unfinished : Waited

-- The loop of `wait`, for a caller that is alone: `sleep now d` is the clock's reading after a sleep
-- of `d`, or nothing when the context ends first.
unfoldable pub wait : ℕ → (ℕ → ℕ → Option ℕ) → ℕ → String → RateLimiter → Waited × RateLimiter
wait zero sleep now id l = (unfinished, l)
wait (suc fuel) sleep now id l =
    let (pause, l') = attempt now id l in
    if pause == 0 then (granted now, l') else elim (sleep now pause) [
      | none ↦ (interrupted, l')
      | some woken ↦ wait fuel sleep woken id l'
    ]

-- What `strconv.Atoi` reads of each header, if it reads a number.
abbrev pub Headers : Type 0
Headers = String → Option ℤ

unfoldable pub parse_header_int : Option ℤ → ℕ × Bool
parse_header_int (some (pos n)) = (n, true)
parse_header_int (some (negsuc _)) = (0, false)
parse_header_int none = (0, false)

unfoldable pub quota_from_headers : Option ℤ → Option ℤ → Option ℤ → ℕ → Option QuotaState
quota_from_headers limit_header remaining_header reset_header now =
    let (limit, limit_ok) = parse_header_int limit_header in
    let (remaining, remaining_ok) = parse_header_int remaining_header in
    let (reset_seconds, reset_ok) = parse_header_int reset_header in
    if not limit_ok && not remaining_ok && not reset_ok
    then none
    else some (record {
      limit = limit;
      remaining = remaining;
      reset_at = if reset_ok && ltb 0 reset_seconds then now + reset_seconds * second else 0;
    })

abbrev pub with_global : Option QuotaState → RateLimiter → RateLimiter
with_global none l = l
with_global (some state) l = record l { global_server = state }

abbrev pub with_account : String → Option QuotaState → RateLimiter → RateLimiter
with_account id none l = l
with_account id (some state) l = record l { account_server = insert id state l.account_server }

unfoldable pub observe : ℕ → Headers → String → RateLimiter → RateLimiter
observe now headers id l =
    let l' =
      with_global
        (quota_from_headers (headers "X-RateLimit-Limit") (headers "X-RateLimit-Remaining")
          (headers "X-RateLimit-Reset") now)
        l in
    if str_eq id ""
    then l'
    else with_account id
        (quota_from_headers (headers "X-RateLimit-Account-Limit")
          (headers "X-RateLimit-Account-Remaining") (headers "X-RateLimit-Account-Reset") now)
        l'
