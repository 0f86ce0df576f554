-- ===== src/Limits/Binance/Cooldown.antt =====
-- The cooldown after a response that reports the limit, of
-- internal/infrastructure/clients/binance/ratelimit.go.

use mathlib.Core.List.{◌++◌}
use wealthfolio_connect_self.Prelude.{
  ℕ, ◌+◌, ◌*◌, ◌≤◌, ◌<◌, ◌≡◌, refl, true, Option, none, some, List, [], ◌∷◌, arith, ◌==◌,
  if◌then◌else◌, All, ltb, leb, not, ◌&&◌, Bool-cases, inl, inr,
}
use wealthfolio_connect_self.Prelude.Int.{ℤ, pos_part}
use wealthfolio_connect_self.Prelude.Time.{second, minute, before}
use wealthfolio_connect_self.Limits.Binance.{
  WeightEvent, WeightTransport, Response, response, unreadable, cancelled, deferred, over_budget,
  active_events, used_weight_of, weight_of, is_limited, delay_of, max_time, observe_response,
  round_trip,
}
use wealthfolio_connect_self.Limits.Binance.Window.{Call, event_of, trip_of, run}

-- The least time that each form of the answer asks for.
unfoldable pub asked_delay : Response → ℕ
asked_delay r = if r.status == 418 then 5 * minute else minute

pub asked_seconds : Option ℤ → ℕ
asked_seconds none = 0
asked_seconds (some s) = pos_part s

-- A cooldown lasts a minute at least, five after status 418, and never less than the seconds that
-- the answer's `Retry-After` names.
pub delay_of-Enough :
    (r : Response) (now : ℕ)
    → (asked_delay r ≤ delay_of r now) × (asked_seconds r.retry_seconds * second ≤ delay_of r now)
unfolding asked_delay asked_seconds delay_of
delay_of-Enough r now = elim r.retry_seconds [ none ↦ ground arith | some s ↦ ground arith ]

observe_response-blocked :
    (r : Response) (answered : ℕ) (t : WeightTransport)
    → (observe_response answered r t).0 ≡ response r
    → is_limited r ≡ true
    → answered + delay_of r answered ≤ (observe_response answered r t).1.blocked_until
unfolding observe_response max_time
observe_response-blocked r answered t out limited =
    elim (Bool-cases (leb 400 r.status && not r.body_readable)) [
      | inl unread ↦ let odd : unreadable ≡ response r = rw unread at out in cc
      | inr fine ↦ ground (arith, fine, limited)
    ]

trip_of-blocked :
    (c : Call) (t : WeightTransport) (log : List WeightEvent) (r : Response) (answered : ℕ)
    → (trip_of c t log).outcome ≡ response r
    → c.answer ≡ some (r, answered)
    → is_limited r ≡ true
    → answered + delay_of r answered ≤ (trip_of c t log).transport.blocked_until
unfolding trip_of round_trip
trip_of-blocked c t log r answered out answer limited =
    let active = active_events c.now t.events in
    elim (Bool-cases c.ctx_done) [
      | inl over ↦ let odd : cancelled ≡ response r = rw over at out in cc
      | inr live ↦ elim (Bool-cases (before c.now t.blocked_until)) [
        | inl blocked ↦ let odd : deferred ≡ response r = rw (live, blocked) at out in cc
        | inr ready ↦ elim (Bool-cases (ltb 600 (used_weight_of active + weight_of c.path))) [
          | inl heavy ↦ let odd : over_budget ≡ response r = rw (live, ready, heavy) at out in cc
          | inr light ↦
              let tracked = record t { events = active ++ event_of c ∷ [] } in
              rw (live, ready, light, answer)
                (observe_response-blocked r answered tracked
                  (rw (live, ready, light, answer) at out) limited)
        ]
      ]
    ]

-- While a transport is blocked its calls reach the network not once.
run-Blocked :
    (cs : List Call) (t : WeightTransport) (log : List WeightEvent)
    → All (λ c. c.now < t.blocked_until) cs
    → run cs t log ≡ log
unfolding run trip_of round_trip
run-Blocked [] t log h = refl
run-Blocked (c ∷ cs) t log h = ground (arith, h.0, run-Blocked cs t log h.1)

All-below :
    (cs : List Call) (bound limit : ℕ)
    → bound ≤ limit
    → All (λ c. c.now < bound) cs
    → All (λ c. c.now < limit) cs
All-below [] bound limit h k = k
All-below (c ∷ cs) bound limit h k = (omega (arith, k.0), All-below cs bound limit h k.1)

-- After a call that returned a response which reports a rate limit, every call of the next minute
-- (of the next five after status 418), counted from the reading of the clock after that response,
-- is refused before it reaches the network.
pub run-CooledDown :
    (c : Call) (t : WeightTransport) (r : Response) (answered : ℕ) (cs : List Call)
    (log : List WeightEvent)
    → (trip_of c t log).outcome ≡ response r
    → c.answer ≡ some (r, answered)
    → is_limited r ≡ true
    → All (λ d. d.now < answered + asked_delay r) cs
    → run cs (trip_of c t log).transport (trip_of c t log).network ≡ (trip_of c t log).network
run-CooledDown c t r answered cs log sent answer limited h =
    run-Blocked cs (trip_of c t log).transport (trip_of c t log).network (
      All-below cs (answered + asked_delay r) (trip_of c t log).transport.blocked_until
        (omega (
          arith,
          trip_of-blocked c t log r answered sent answer limited,
          (delay_of-Enough r answered).0,
        ))
        h)
