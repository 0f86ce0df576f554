-- ===== src/Limits/Tests.antt =====
-- The rate limits on concrete runs.
use wealthfolio_connect_self.Prelude.{
  ℕ, ◌+◌, ◌*◌, ◌≤◌, ◌≡◌, refl, true, false, Option, none, some, List, [], ◌∷◌, arith,
}
use wealthfolio_connect_self.Prelude.Int.{pos}
use wealthfolio_connect_self.Prelude.Time.{second, minute}
use wealthfolio_connect_self.Limits.Binance.{
  WeightTransport, Response, response, observe_response, max_time, round_trip, is_limited,
  used_weight_of, active_events, weight_of,
}
use wealthfolio_connect_self.Limits.Binance.Window as Window
use wealthfolio_connect_self.Limits.Binance.Window.{Call, window, run-Within}
use wealthfolio_connect_self.Limits.Binance.Cooldown.{asked_delay, run-CooledDown}
use wealthfolio_connect_self.Limits.SnapTrade.{
  LimitConfig, Headers, new_rate_limiter, safe_capacity, global_limit_of, attempt, wait,
}
use wealthfolio_connect_self.Limits.SnapTrade.Window.{count}
use wealthfolio_connect_self.Limits.SnapTrade.Budget as Budget
use wealthfolio_connect_self.Limits.SnapTrade.Budget.{
  Event, attempted, observed, times, run-InBudget,
}
use wealthfolio_connect_self.Limits.SnapTrade.Retry.{ended, wait-Ended}

abbrev too_many : Response
too_many = record {
  status = 429;
  used_weight = none;
  body_readable = true;
  api_code = none;
  retry_seconds = none;
  retry_at = none;
}

abbrev limited_call : Call
limited_call = record {
  ctx_done = false;
  now = minute;
  path = "/api/v3/account";
  answer = some (too_many, minute + second);
}

abbrev late_call : Call
late_call = record {
  ctx_done = false;
  now = minute + 30 * second;
  path = "/api/v3/ticker/price";
  answer = none;
}

abbrev fresh : WeightTransport
fresh = record { events = []; blocked_until = 0 }

run-Within_example : window (2 * minute) (Window.run (late_call ∷ []) fresh []) ≤ 600
run-Within_example = run-Within (late_call ∷ []) (2 * minute) (omega arith, tt)

limited_call-Answered : (Window.trip_of limited_call fresh []).outcome ≡ response too_many
unfolding Window.trip_of round_trip observe_response used_weight_of active_events weight_of
    is_limited max_time
limited_call-Answered = refl

run-CooledDown_example :
    Window.run
      (late_call ∷ [])
      (Window.trip_of limited_call fresh []).transport
      (Window.trip_of limited_call fresh []).network
    ≡ (Window.trip_of limited_call fresh []).network
unfolding is_limited asked_delay
run-CooledDown_example =
    run-CooledDown limited_call fresh too_many (minute + second) (late_call ∷ []) []
      limited_call-Answered refl refl (omega arith, tt)

abbrev config : LimitConfig
config = record {
  personal = true;
  request_interval = second;
  requests_per_minute = 0;
  account_requests_pm = 0;
  safety_percent = 80;
}

abbrev quota_headers : Headers
quota_headers name = some (pos 20)

abbrev busy : List Event
busy =
    attempted minute "a"
    ∷ observed minute quota_headers "a"
    ∷ attempted (minute + second) "b"
    ∷ attempted (minute + 30 * second) "a"
    ∷ []

ordered : Budget.IsMonotone 0 busy
ordered = (omega arith, (omega arith, (omega arith, (omega arith, tt))))

run-InBudget_example :
    (count (2 * minute) (times (Budget.run busy (new_rate_limiter config) []))
      ≤ safe_capacity (global_limit_of config) 80)
    × (count (2 * minute) (times (Budget.run busy (new_rate_limiter config) [])) ≤ 237)
run-InBudget_example = run-InBudget config busy (2 * minute) (omega arith) ordered

abbrev sleep : ℕ → ℕ → Option ℕ
sleep at d = some (at + d + second)

wait-Ended_example :
    ended (wait 2 sleep minute "a" (attempt minute "a" (new_rate_limiter config)).1).0 ≡ true
wait-Ended_example =
    wait-Ended sleep minute 0 "a" (attempt minute "a" (new_rate_limiter config)).1
      (λ at d woken h. ground (arith, h))
