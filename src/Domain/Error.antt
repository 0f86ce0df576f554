-- ===== src/Domain/Error.antt =====
-- Go errors of the sync engine and its ports: `none` is `nil`. `wrapped` is `fmt.Errorf("…: %w")`
-- and `joined` is `errors.Join`; `errors.Is` looks through both.
use wealthfolio_connect_self.Prelude.{
  String, Bool, true, false, ◌||◌, Option, none, some, ◌≡◌, refl, ◌⊎◌, inl, inr,
}
use mathlib.Core.Path.{fun_ext}

pub data Error : Type 0 where
  not_found : Error
  foreign : String → Error
  wrapped : String → Error → Error
  joined : Error → Error → Error

-- The result of a call that returns a value and an error.
pub data Fetched (A : Type 0) : Type 0 where
  ok : A → Fetched A
  failed : Error → Fetched A

-- `fmt.Errorf("…: %w", err)` where `err` is not `nil`, else `nil`.
abbrev pub wrap : String → Option Error → Option Error
wrap text none = none
wrap text (some e) = some (wrapped text e)

-- `errors.Join(a, b)`, which drops what is `nil`.
abbrev pub join : Option Error → Option Error → Option Error
join none b = b
join (some a) none = some a
join (some a) (some b) = some (joined a b)

-- `errors.Is(err, repository.ErrNotFound)`
unfoldable pub is_not_found : Error → Bool
is_not_found not_found = true
is_not_found (foreign _) = false
is_not_found (wrapped _ e) = is_not_found e
is_not_found (joined a b) = is_not_found a || is_not_found b

-- A call that changes the state `D` and returns an error or `nil`.
abbrev pub Action : Type 0 → Type 0
Action D = D → Option Error × D

module _ {D : Type 0} where
  abbrev pub done : Action D
  done d = (none, d)

  -- `if err := first(); err != nil { return err }; second()`
  abbrev pub next : Option Error × D → Action D → Option Error × D
  next (none, d) m = m d
  next (some e, d) m = (some e, d)

  infixl 5 ◌>>◌
  abbrev pub ◌>>◌ : Action D → Action D → Action D
  ◌>>◌ first second d = next (first d) second

  next_assoc :
      (p : Option Error × D) (m k : Action D) → next (next p m) k ≡ next p (λ d. next (m d) k)
  next_assoc (none, d) m k = refl
  next_assoc (some e, d) m k = refl

  pub >>_assoc : (a b c : Action D) → (a >> b >> c) ≡ (a >> (b >> c))
  >>_assoc a b c = fun_ext λ d. next_assoc (a d) b c

  abbrev pub wrapping : String → Action D → Action D
  wrapping text m d = let (e, d') = m d in (wrap text e, d')

-- To split on what a call fetched and keep the equation.
pub Fetched-cases :
    {A : Type 0} (f : Fetched A) → ((a : A) × (f ≡ ok a)) ⊎ ((e : Error) × (f ≡ failed e))
Fetched-cases (ok a) = inl (a, refl)
Fetched-cases (failed e) = inr (e, refl)
