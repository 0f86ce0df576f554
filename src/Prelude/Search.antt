-- ===== src/Prelude/Search.antt =====
-- Loops that return the first element a test accepts, and loops that collect all of them.
use mathlib.Core.Bool.{Bool, true, false, Bool-set}
use mathlib.Core.List.{
  List, [], ◌∷◌, Mem, Mem-prop, mem-cons_self, mem-cons_of_mem, not-mem-nil, eq-or-mem_of_mem-cons,
}
use mathlib.Core.Logic.Or
use mathlib.Core.Logic.{inl, inr}
use mathlib.Core.Option.{Option, none, some}
use mathlib.Core.Path.{◌≡◌, sym}
use native.Mathlib.Omega.{arith}
use wealthfolio_connect_self.Prelude.Tests.{if◌then◌else◌, Bool-cases}

module _ {A : Type 0} (accepts : A → Bool) where
  unfoldable pub find_first : List A → Option A
  find_first [] = none
  find_first (x ∷ xs) = let rest = find_first xs in if accepts x then some x else rest

  unfoldable pub keep : List A → List A
  keep [] = []
  keep (x ∷ xs) = let rest = keep xs in if accepts x then x ∷ rest else rest

  pub find_first_sound :
      (xs : List A) (x : A) → find_first xs ≡ some x → Mem x xs × (accepts x ≡ true)
  unfolding find_first
  find_first_sound [] x h = cc
  find_first_sound (y ∷ ys) x h = elim (Bool-cases (accepts y)) [
    | inl good ↦
        let same : some y ≡ some x = rw good at h in
        let same' : y ≡ x = cc in rw (sym same') (mem-cons_self, good)
    | inr bad ↦
        let (inside, good) = find_first_sound ys x (rw bad at h) in (mem-cons_of_mem y inside, good)
  ]

  pub find_first-none : (xs : List A) (x : A) → find_first xs ≡ none → Mem x xs → accepts x ≡ false
  unfolding find_first
  find_first-none [] x h m = absurd (not-mem-nil m)
  find_first-none (y ∷ ys) x h m = elim (Bool-cases (accepts y)) [
    | inl good ↦ ground (arith, h, good)
    | inr bad ↦
        Or.elim (Bool-set (accepts x) false) (eq-or-mem_of_mem-cons m) (λ same. rw same bad)
          (λ inside. find_first-none ys x (rw bad at h) inside)
  ]

  pub mem-keep : (xs : List A) (x : A) → Mem x (keep xs) → Mem x xs × (accepts x ≡ true)
  unfolding keep
  mem-keep [] x m = absurd (not-mem-nil m)
  mem-keep (y ∷ ys) x m = elim (Bool-cases (accepts y)) [
    | inr bad ↦ let (inside, good) = mem-keep ys x (rw bad at m) in (mem-cons_of_mem y inside, good)
    | inl good ↦
        let split : Mem x (y ∷ keep ys) = rw good at m in
        (
          Or.elim Mem-prop (eq-or-mem_of_mem-cons split) (λ same. rw same mem-cons_self)
              (λ inside. mem-cons_of_mem y (mem-keep ys x inside).0),
          Or.elim (Bool-set (accepts x) true) (eq-or-mem_of_mem-cons split) (λ same. rw same good)
              (λ inside. (mem-keep ys x inside).1),
        )
  ]

  pub mem-keep_back : (xs : List A) (x : A) → Mem x xs → accepts x ≡ true → Mem x (keep xs)
  unfolding keep
  mem-keep_back [] x m good = absurd (not-mem-nil m)
  mem-keep_back (y ∷ ys) x m good =
      Or.elim Mem-prop (eq-or-mem_of_mem-cons m) (λ same. rw (sym same) (rw good mem-cons_self))
        (λ inside.
          let later = mem-keep_back ys x inside good in
          elim (Bool-cases (accepts y)) [
            | inl used ↦ rw used (mem-cons_of_mem y later)
            | inr skipped ↦ rw skipped later
          ])
