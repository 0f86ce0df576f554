-- ===== src/Limits/Binance/Window.antt =====
-- The request weights of a minute, of internal/infrastructure/clients/binance/ratelimit.go.
use mathlib.Core.List.{◌++◌}
use wealthfolio_connect_self.Prelude.{
  ℕ, ◌+◌, ◌≤◌, String, ◌≡◌, refl, Bool, ◌&&◌, Option, none, some, List, [], ◌∷◌, arith, ltb, leb,
  if◌then◌else◌, Bool-cases, inl, inr,
}
use wealthfolio_connect_self.Prelude.Time.{minute, before}
use wealthfolio_connect_self.Limits.Binance.{
  WeightEvent, WeightTransport, Response, weight_of, active_events, used_weight_of,
  observe_response, finish, Send, Trip, round_trip,
}

-- The weight of the events in the minute that ends at `t`.
abbrev pub in_window : ℕ → WeightEvent → Bool
in_window t e = leb e.at t && ltb t (e.at + minute)

pub window : ℕ → List WeightEvent → ℕ
window t [] = 0
window t (e ∷ es) = (if in_window t e then e.weight else 0) + window t es

window-append : (t : ℕ) (xs ys : List WeightEvent) → window t (xs ++ ys) ≡ window t xs + window t ys
unfolding window
window-append t [] ys = omega arith
window-append t (x ∷ xs) ys = omega (arith, window-append t xs ys)

window-le : (t : ℕ) (es : List WeightEvent) → window t es ≤ used_weight_of es
unfolding window used_weight_of
window-le t [] = omega arith
window-le t (e ∷ es) = ground (arith, window-le t es)

-- Pruning at `now` changes no window that ends later.
window-active_events :
    (now t : ℕ) (es : List WeightEvent) → now ≤ t → window t (active_events now es) ≡ window t es
unfolding window active_events
window-active_events now t [] h = refl
window-active_events now t (e ∷ es) h = ground (arith, window-active_events now t es h)

-- A call of the transport: whether the context is done, the clock, the path and the answer.
pub record Call : Type 0 where
  pub ctx_done : Bool
  pub now : ℕ
  pub path : String
  pub answer : Option (Response × ℕ)

abbrev pub event_of : Call → WeightEvent
event_of c = record { at = c.now; weight = weight_of c.path }

-- The network is the log of the requests that reached it, newest first.
abbrev pub logged : Call → Send (List WeightEvent)
logged c log = (c.answer, event_of c ∷ log)

unfoldable pub trip_of : Call → WeightTransport → List WeightEvent → Trip (List WeightEvent)
trip_of c t log = round_trip c.ctx_done c.now c.path (logged c) t log

-- The log after the calls of a run.
unfoldable pub run : List Call → WeightTransport → List WeightEvent → List WeightEvent
run [] t log = log
run (c ∷ cs) t log = run cs (trip_of c t log).transport (trip_of c t log).network

abbrev pub IsMonotone : ℕ → List Call → Type 0
IsMonotone clock [] = Unit
IsMonotone clock (c ∷ cs) = (clock ≤ c.now) × IsMonotone c.now cs

-- What a run keeps: no window of the log is over the budget, and those that end from now on are
-- windows of the events that the transport still has.
IsWithinBudget : ℕ → List WeightEvent → List WeightEvent → Type 0
IsWithinBudget clock events log =
    ((t : ℕ) → window t log ≤ 600) × ((t : ℕ) → clock ≤ t → window t log ≡ window t events)

finish-events :
    (answer : Option (Response × ℕ)) (t : WeightTransport) → (finish answer t).1.events ≡ t.events
unfolding observe_response
finish-events none t = refl
finish-events (some (r, now)) t = ground arith

-- A call leaves the log and the events, or drops events that are over, or is sent within the budget
-- and stands in both.
data IsTrip (c : Call) (t : WeightTransport) (log : List WeightEvent) (r : Trip (List WeightEvent))
    : Type 0 where
  kept : r.network ≡ log → r.transport.events ≡ t.events → IsTrip c t log r
  pruned : r.network ≡ log → r.transport.events ≡ active_events c.now t.events → IsTrip c t log r
  sent :
      r.network ≡ event_of c ∷ log
      → r.transport.events ≡ active_events c.now t.events ++ event_of c ∷ []
      → used_weight_of (active_events c.now t.events) + weight_of c.path ≤ 600
      → IsTrip c t log r

trip_of-IsTrip :
    (c : Call) (t : WeightTransport) (log : List WeightEvent) → IsTrip c t log (trip_of c t log)
unfolding trip_of round_trip
trip_of-IsTrip c t log =
    let active = active_events c.now t.events in
    elim (Bool-cases c.ctx_done) [
      | inl over ↦ rw over (kept refl refl)
      | inr live ↦ elim (Bool-cases (before c.now t.blocked_until)) [
        | inl blocked ↦ rw (live, blocked) (kept refl refl)
        | inr ready ↦ elim (Bool-cases (ltb 600 (used_weight_of active + weight_of c.path))) [
          | inl heavy ↦ rw (live, ready, heavy) (pruned refl refl)
          | inr light ↦
              rw (live, ready, light)
                (sent refl
                  (finish-events c.answer (record t { events = active ++ event_of c ∷ [] }))
                  (ground (arith, light)))
        ]
      ]
    ]

trip_of-IsWithinBudget :
    (c : Call) (t : WeightTransport) (log : List WeightEvent) (clock : ℕ)
    → clock ≤ c.now
    → IsWithinBudget clock t.events log
    → IsWithinBudget c.now (trip_of c t log).transport.events (trip_of c t log).network
unfolding IsWithinBudget window
trip_of-IsWithinBudget c t log clock monotone budget = elim (trip_of-IsTrip c t log) [
  | kept same events ↦
      rw (same, events) (budget.0, λ u later. budget.1 u (omega (arith, monotone, later)))
  | pruned same events ↦
      rw (same, events)
        (
          budget.0,
          λ u later. omega (
            arith,
            budget.1 u (omega (arith, monotone, later)),
            window-active_events c.now u t.events later,
          ),
        )
  | sent same events light ↦
      rw (same, events)
        (
          λ u. ground (
            arith,
            monotone,
            light,
            budget.0 u,
            budget.1 u,
            window-le u (active_events c.now t.events),
            window-active_events c.now u t.events,
          ),
          λ u later. omega (
            arith,
            budget.1 u (omega (arith, monotone, later)),
            window-active_events c.now u t.events later,
            window-append u (active_events c.now t.events) (event_of c ∷ []),
          ),
        )
]

run-IsWithinBudget :
    (cs : List Call) (clock : ℕ) (t : WeightTransport) (log : List WeightEvent)
    → IsMonotone clock cs
    → IsWithinBudget clock t.events log
    → (u : ℕ) → window u (run cs t log) ≤ 600
unfolding run IsWithinBudget
run-IsWithinBudget [] clock t log m b u = b.0 u
run-IsWithinBudget (c ∷ cs) clock t log m b u =
    run-IsWithinBudget cs c.now (trip_of c t log).transport (trip_of c t log).network m.1
      (trip_of-IsWithinBudget c t log clock m.0 b) u

-- In every run of the transport from its first state, with a clock that does not go back, the
-- requests that reach the network in any one minute weigh 600 at most.
pub run-Within :
    (cs : List Call) (u : ℕ)
    → IsMonotone 0 cs
    → window u (run cs (record { events = []; blocked_until = 0 }) []) ≤ 600
unfolding IsWithinBudget window
run-Within cs u m =
    run-IsWithinBudget cs 0 (record { events = []; blocked_until = 0 }) [] m
      (λ v. omega arith, λ v h. refl) u
