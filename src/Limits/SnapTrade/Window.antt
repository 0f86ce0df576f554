-- ===== src/Limits/SnapTrade/Window.antt =====
-- The requests of a window: what `pruneWindow` and `localWindowWait` of
-- internal/infrastructure/clients/snaptrade/limiter.go keep.
use mathlib.Core.List.{◌++◌}
use wealthfolio_connect_self.Prelude.{
  ℕ, zero, suc, Bool-cases, inl, inr, ◌+◌, ◌-◌, ◌≤◌, ◌<◌, ◌≡◌, refl, ◌&&◌, some, List, [], ◌∷◌,
  arith, ltb, leb, length, get_elem?, if◌then◌else◌, All, All-append,
}
use wealthfolio_connect_self.Prelude.Time.{minute}
use wealthfolio_connect_self.Limits.SnapTrade.{prune_window, local_window_wait}

-- How many requests the minute that ends at `t` has.
unfoldable pub count : ℕ → List ℕ → ℕ
count t [] = 0
count t (at ∷ rest) = (if leb at t && ltb t (at + minute) then 1 else 0) + count t rest

pub count-append : (t : ℕ) (xs ys : List ℕ) → count t (xs ++ ys) ≡ count t xs + count t ys
unfolding count
count-append t [] ys = omega arith
count-append t (x ∷ xs) ys = omega (arith, count-append t xs ys)

pub count-le : (t : ℕ) (xs : List ℕ) → count t xs ≤ length xs
unfolding count
count-le t [] = omega arith
count-le t (x ∷ xs) = ground (arith, count-le t xs)

-- Pruning at `now` changes no window that ends later.
pub count-prune_window :
    (now t : ℕ) (xs : List ℕ) → now ≤ t → count t (prune_window xs now) ≡ count t xs
unfolding count prune_window
count-prune_window now t [] h = refl
count-prune_window now t (x ∷ xs) h = ground (arith, count-prune_window now t xs h)

pub length-prune_window : (now : ℕ) (xs : List ℕ) → length (prune_window xs now) ≤ length xs
unfolding prune_window
length-prune_window now [] = omega arith
length-prune_window now (x ∷ xs) = ground (arith, length-prune_window now xs)

-- The waiting time only falls when the requests are pruned.
pub local_window_wait-prune_window :
    (xs : List ℕ) (capacity now : ℕ)
    → local_window_wait (prune_window xs now) capacity now ≤ local_window_wait xs capacity now
unfolding prune_window local_window_wait
local_window_wait-prune_window [] capacity now = omega arith
local_window_wait-prune_window (x ∷ xs) capacity now =
    ground (arith, local_window_wait-prune_window xs capacity now)

abbrev pub IsSorted : List ℕ → Type 0
IsSorted [] = Unit
IsSorted (x ∷ xs) = All (λ y. x ≤ y) xs × IsSorted xs

All-prune_window : (P : ℕ → Type 0) (now : ℕ) (xs : List ℕ) → All P xs → All P (prune_window xs now)
unfolding prune_window
All-prune_window P now [] h = tt
All-prune_window P now (x ∷ xs) h = ground (arith, All-prune_window P now xs h.1)

pub prune_window-IsSorted : (now : ℕ) (xs : List ℕ) → IsSorted xs → IsSorted (prune_window xs now)
unfolding prune_window
prune_window-IsSorted now [] h = tt
prune_window-IsSorted now (x ∷ xs) h = ground (arith, prune_window-IsSorted now xs h.1)

All-le :
    (now x : ℕ) (xs : List ℕ)
    → now < x + minute
    → All (λ y. x ≤ y) xs
    → All (λ y. now < y + minute) xs
All-le now x [] h k = tt
All-le now x (y ∷ xs) h k = (omega (arith, k.0), All-le now x xs h k.1)

-- Of requests in order, pruning leaves those of the last minute.
prune_window-All :
    (now : ℕ) (xs : List ℕ) → IsSorted xs → All (λ x. now < x + minute) (prune_window xs now)
unfolding prune_window
prune_window-All now [] h = tt
prune_window-All now (x ∷ xs) h =
    ground (arith, prune_window-All now xs h.1, λ (k : now < x + minute). All-le now x xs k h.0)

get_elem?-All :
    (P : ℕ → Type 0) (xs : List ℕ) (i : ℕ)
    → All P xs
    → i < length xs
    → (x : ℕ) × (get_elem? xs i ≡ some x) × P x
get_elem?-All P [] i h k = ground arith
get_elem?-All P (y ∷ xs) zero h k = (y, refl, h.0)
get_elem?-All P (y ∷ xs) (suc i) h k = get_elem?-All P xs i h.1 (omega (arith, k))

-- A limiter that does not wait for its window has room in it.
pub local_window_wait-Room :
    (xs : List ℕ) (capacity now : ℕ)
    → IsSorted xs
    → 0 < capacity
    → local_window_wait (prune_window xs now) capacity now ≡ 0
    → length (prune_window xs now) < capacity
unfolding local_window_wait
local_window_wait-Room xs capacity now sorted positive h =
    elim (Bool-cases (ltb (length (prune_window xs now)) capacity)) [
      | inl room ↦ ground arith
      | inr full ↦
          let (x, found, fresh) =
            get_elem?-All (λ x. now < x + minute) (prune_window xs now)
              (length (prune_window xs now) - capacity) (prune_window-All now xs sorted)
              (ground arith) in
          ground (arith, found, fresh)
    ]

append-IsSorted :
    (xs : List ℕ) (now : ℕ) → IsSorted xs → All (λ x. x ≤ now) xs → IsSorted (xs ++ now ∷ [])
append-IsSorted [] now h k = (tt, tt)
append-IsSorted (x ∷ xs) now h k =
    (All-append (λ y. x ≤ y) xs (now ∷ []) h.0 (k.0, tt), append-IsSorted xs now h.1 k.1)

All-later :
    (xs : List ℕ) (clock now : ℕ) → clock ≤ now → All (λ x. x ≤ clock) xs → All (λ x. x ≤ now) xs
All-later [] clock now h k = tt
All-later (x ∷ xs) clock now h k = (omega (arith, k.0), All-later xs clock now h k.1)

-- The requests that a limiter still has, against all it granted: in order, none of the future, no
-- window over the capacity, and nothing forgotten that a later window has.
pub record IsTracked (capacity clock : ℕ) (requests log : List ℕ) : Type 0 where
  pub sorted : IsSorted requests
  pub past : All (λ x. x ≤ clock) requests
  pub within : (t : ℕ) → count t log ≤ capacity
  pub kept : (t : ℕ) → clock ≤ t → count t log ≡ count t requests

module _ (capacity clock now : ℕ) (requests log : List ℕ) (monotone : clock ≤ now) where
  pub prune_window-IsTracked :
      IsTracked capacity clock requests log → IsTracked capacity now (prune_window requests now) log
  prune_window-IsTracked h = record {
    sorted = prune_window-IsSorted now requests h.sorted;
    past =
        All-prune_window (λ x. x ≤ now) now requests (All-later requests clock now monotone h.past);
    within = h.within;
    kept =
        λ t later. omega (arith, h.kept t (omega arith), count-prune_window now t requests later);
  }

  pub later-IsTracked : IsTracked capacity clock requests log → IsTracked capacity now requests log
  later-IsTracked h = record {
    sorted = h.sorted;
    past = All-later requests clock now monotone h.past;
    within = h.within;
    kept = λ t later. h.kept t (omega arith);
  }

  pub grant-IsTracked :
      IsTracked capacity clock requests log
      → (effective : ℕ) → 0 < effective
      → effective ≤ capacity
      → local_window_wait (prune_window requests now) effective now ≡ 0
      → IsTracked capacity now (prune_window requests now ++ now ∷ []) (now ∷ log)
  unfolding count
  grant-IsTracked h effective positive below room =
      let pruned = prune_window-IsTracked h in
      record {
        sorted = append-IsSorted (prune_window requests now) now pruned.sorted pruned.past;
        past =
            All-append (λ x. x ≤ now) (prune_window requests now) (now ∷ []) pruned.past
              (omega arith, tt);
        within = λ t. ground (
          arith,
          h.within t,
          pruned.kept t,
          count-le t (prune_window requests now),
          local_window_wait-Room requests effective now h.sorted positive room,
        );
        kept = λ t later.
            omega
              (arith, pruned.kept t later, count-append t (prune_window requests now) (now ∷ []));
      }
