-- ===== src/Prelude/Sort.antt =====
-- `sort.Slice` with a strict order, as insertion sort: where `less` orders any two different
-- elements, every sort gives this list, and elsewhere this is one of the lists that Go may give.

use mathlib.Core.Bool.{Bool}
use mathlib.Core.List.{List, [], ◌∷◌, Mem, Perm}
use mathlib.Core.List.Perm
use mathlib.Core.Logic.{inl, inr}
use wealthfolio_connect_self.Prelude.Tests.{if◌then◌else◌, Bool-cases}

module _ {A : Type 0} (less : A → A → Bool) where
  unfoldable pub insert_sorted : A → List A → List A
  insert_sorted x [] = x ∷ []
  insert_sorted x (y ∷ ys) =
      let rest = insert_sorted x ys in if less y x then y ∷ rest else x ∷ y ∷ ys

  unfoldable pub sort_slice : List A → List A
  sort_slice [] = []
  sort_slice (x ∷ xs) = insert_sorted x (sort_slice xs)

  insert_sorted-perm : (x : A) (xs : List A) → Perm (insert_sorted x xs) (x ∷ xs)
  unfolding insert_sorted
  insert_sorted-perm x [] = Perm.rfl
  insert_sorted-perm x (y ∷ ys) = elim (Bool-cases (less y x)) [
    | inl h ↦ rw h (Perm.trans (Perm.cons y (insert_sorted-perm x ys)) (Perm.swap x y ys))
    | inr h ↦ rw h Perm.rfl
  ]

  pub sort_slice-perm : (xs : List A) → Perm (sort_slice xs) xs
  unfolding sort_slice
  sort_slice-perm [] = Perm.rfl
  sort_slice-perm (x ∷ xs) =
      Perm.trans (insert_sorted-perm x (sort_slice xs)) (Perm.cons x (sort_slice-perm xs))

  -- Sorting neither loses nor invents elements.
  pub mem-sort_slice : (x : A) (xs : List A) → Mem x (sort_slice xs) → Mem x xs
  mem-sort_slice x xs m = (Perm.mem_iff (sort_slice-perm xs)).0 m

  pub mem-sort_slice_back : (x : A) (xs : List A) → Mem x xs → Mem x (sort_slice xs)
  mem-sort_slice_back x xs m = (Perm.mem_iff (sort_slice-perm xs)).1 m
