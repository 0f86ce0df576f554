-- ===== src/Limits/Binance.antt =====
-- `weightTransport` of internal/infrastructure/clients/binance/ratelimit.go. A round trip holds the
-- mutex throughout, so a run of the transport is a sequence of these steps.
pub mod Window
pub mod Cooldown
use Prim.Native.Nat.{max}
use mathlib.Core.List.{◌++◌}
use wealthfolio_connect_self.Prelude.{
  ℕ, ◌+◌, ◌-◌, ◌*◌, String, Bool, true, false, not, ◌&&◌, ◌||◌, Option, none, some, List, [], ◌∷◌,
  ltb, leb, ◌==◌, str_eq, if◌then◌else◌,
}
use wealthfolio_connect_self.Prelude.Int.{ℤ, pos, negsuc, pos_part, is_positive}
use wealthfolio_connect_self.Prelude.Time.{second, minute, before, after}

pub record WeightEvent : Type 0 where
  pub at : ℕ
  pub weight : ℕ

pub record WeightTransport : Type 0 where
  pub events : List WeightEvent
  pub blocked_until : ℕ

-- What the code reads of a response: the status, the `X-MBX-USED-WEIGHT-1M` header, the `code` of
-- the error body and the two forms of `Retry-After`; `none` where a value does not parse.
pub record Response : Type 0 where
  pub status : ℕ
  pub used_weight : Option ℤ
  pub body_readable : Bool
  pub api_code : Option ℤ
  pub retry_seconds : Option ℤ
  pub retry_at : Option ℕ

pub data Outcome : Type 0 where
  cancelled deferred over_budget failed unreadable : Outcome
  response : Response → Outcome

unfoldable pub weight_of : String → ℕ
weight_of path = if str_eq path "/api/v3/ticker/price" then 4 else 20

-- `now.Sub(at) < time.Minute`
abbrev pub is_active : ℕ → WeightEvent → Bool
is_active now e = ltb now (e.at + minute)

unfoldable pub active_events : ℕ → List WeightEvent → List WeightEvent
active_events now [] = []
active_events now (e ∷ es) =
    let rest = active_events now es in if is_active now e then e ∷ rest else rest

unfoldable pub used_weight_of : List WeightEvent → ℕ
used_weight_of [] = 0
used_weight_of (e ∷ es) = e.weight + used_weight_of es

unfoldable pub max_time : ℕ → ℕ → ℕ
max_time a b = if after a b then a else b

-- `parseErr == nil && observed >= 5000`
abbrev pub is_exhausted : Option ℤ → Bool
is_exhausted none = false
is_exhausted (some w) = leb 5000 (pos_part w)

-- `Code == -1003`
abbrev pub is_too_many : Option ℤ → Bool
is_too_many (some (negsuc n)) = n == 1002
is_too_many _ = false

unfoldable pub is_limited : Response → Bool
is_limited r = r.status == 429 || r.status == 418 || (leb 400 r.status && is_too_many r.api_code)

-- The cooldown that a limited response asks for.
unfoldable pub delay_of : Response → ℕ → ℕ
delay_of r now =
    let delay = if r.status == 418 then 5 * minute else minute in
    elim r.retry_seconds [
      | none ↦ elim r.retry_at [ none ↦ delay | some t ↦ max delay (t - now) ]
      | some s ↦
          if is_positive s
          then max delay (pos_part s * second)
          else elim r.retry_at [ none ↦ delay | some t ↦ max delay (t - now) ]
    ]

-- What `RoundTrip` does with a response, read at time `now`.
unfoldable pub observe_response : ℕ → Response → WeightTransport → Outcome × WeightTransport
observe_response now r t =
    let t' = if is_exhausted r.used_weight then record t { blocked_until = now + minute } else t in
    if leb 400 r.status && not r.body_readable then (unreadable, t') else (
      response r,
      if is_limited r
          then record t' { blocked_until = max_time t'.blocked_until (now + delay_of r now) }
          else t',
    )

-- `t.base.RoundTrip(req)` is a call on the network `N`; it gives an error or a response, with the
-- clock's reading after it.
abbrev pub Send : Type 0 → Type 0
Send N = N → Option (Response × ℕ) × N

-- What `RoundTrip` does with the result of the underlying transport.
abbrev pub finish : Option (Response × ℕ) → WeightTransport → Outcome × WeightTransport
finish none t = (failed, t)
finish (some (r, now)) t = observe_response now r t

-- The outcome, the transport and the network after a call.
pub record Trip (N : Type 0) : Type 0 where
  pub outcome : Outcome
  pub transport : WeightTransport
  pub network : N

abbrev pub trip : {N : Type 0} → Outcome × WeightTransport → N → Trip N
trip (o, t) n = record { outcome = o; transport = t; network = n }

unfoldable pub round_trip : {N : Type 0} → Bool → ℕ → String → Send N → WeightTransport → N → Trip N
round_trip ctx_done now path send t n =
    if ctx_done
    then trip (cancelled, t) n
    else if before now t.blocked_until
    then trip (deferred, t) n
    else let active = active_events now t.events in
      if ltb 600 (used_weight_of active + weight_of path)
      then trip (over_budget, record t { events = active }) n
      else let (answer, n') = send n in
        trip
          (finish answer
            (record t { events = active ++ record { at = now; weight = weight_of path } ∷ [] }))
          n'
