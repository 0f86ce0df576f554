-- ===== src/Steam/Walk.antt =====
-- What the walks through pages of internal/infrastructure/clients/steam share: a loop of at most
-- `MaxPages` turns, and the rows that are added once for each external identifier.
pub mod Market
pub mod Reach
pub mod Backfill
pub mod History
pub mod Ends
pub mod Trades
pub mod Offsets
use mathlib.Core.List.{◌++◌}
use wealthfolio_connect_self.Prelude.{
  ℕ, zero, suc, String, Bool, true, false, ◌||◌, List, [], ◌∷◌, ◌≡◌, refl, sym, ◌∙◌, ◌⊎◌, inl, inr,
  arith, eq_iff, str_eq, map,
}
use wealthfolio_connect_self.Steam.Match.{contains}
use wealthfolio_connect_self.Steam.Resolve.Distinct.{IsDistinct}

-- One turn of the loop: a `return`, or the variables in front of the next turn.
pub data Turn (S R : Type 0) : Type 0 where
  stop : R → Turn S R
  go : S → Turn S R

pub Turn-cases : {S R : Type 0} (t : Turn S R) → ((r : R) × (t ≡ stop r)) ⊎ ((s : S) × (t ≡ go s))
Turn-cases (stop r) = inl (r, refl)
Turn-cases (go s) = inr (s, refl)

abbrev pub after_turn : {S R : Type 0} → (S → R) → Turn S R → R
after_turn later (stop r) = r
after_turn later (go s) = later s

module _ {S R : Type 0} (turn : ℕ → S → Turn S R) (capped : S → R) where
  -- `for page := page; page < page + left; page++`, and what stands behind the loop.
  unfoldable pub walk : ℕ → ℕ → S → R
  walk zero page s = capped s
  walk (suc left) page s = after_turn (walk left (suc page)) (turn page s)

  -- The loop keeps an invariant, so its result has what a `return` under it has.
  pub walk-keeps :
      (I : ℕ → S → Type 0) (Q : R → Type 0)
      (keeps : (page : ℕ) (s s' : S) → I page s → turn page s ≡ go s' → I (suc page) s')
      (returns : (page : ℕ) (s : S) (r : R) → I page s → turn page s ≡ stop r → Q r)
      (ends : (page : ℕ) (s : S) → I page s → Q (capped s)) (left page : ℕ) (s : S)
      → I page s
      → Q (walk left page s)
  unfolding walk
  walk-keeps I Q keeps returns ends zero page s h = ends page s h
  walk-keeps I Q keeps returns ends (suc left) page s h = elim (Turn-cases (turn page s)) [
    | inl (r, is) ↦ rw is (returns page s r h is)
    | inr (s', is) ↦
        rw is (walk-keeps I Q keeps returns ends left (suc page) s' (keeps page s s' h is))
  ]

-- The rows so far, and the map of the identifiers that were seen.
pub record Gathered (A : Type 0) : Type 0 where
  pub all : List A
  pub seen : List String

abbrev pub nothing_gathered : {A : Type 0} → Gathered A
nothing_gathered = record { all = []; seen = [] }

-- `id` stands in the list.
abbrev pub without_repeat : {A : Type 0} → Bool → String → A → Gathered A → Gathered A
without_repeat true id row g = g
without_repeat false id row g = record { all = g.all ++ (row ∷ []); seen = id ∷ g.seen }

module _ {A : Type 0} (external_id : A → String) where
  unfoldable pub gather : List A → Gathered A → Gathered A
  gather [] g = g
  gather (row ∷ rows) g =
      gather rows (without_repeat (contains (external_id row) g.seen) (external_id row) row g)

  -- The rows have different identifiers, all of which are in the map.
  pub record IsGathered (g : Gathered A) : Type 0 where
    pub distinct : IsDistinct (map external_id g.all)
    pub known : (id : String) → contains id g.seen ≡ contains id (map external_id g.all)

  pub nothing_gathered-IsGathered : IsGathered nothing_gathered
  unfolding contains
  nothing_gathered-IsGathered = record { distinct = tt; known = λ id. refl }

  contains-snoc :
      (id : String) (rows : List A) (row : A)
      → contains id (map external_id (rows ++ (row ∷ [])))
        ≡ (str_eq (external_id row) id || contains id (map external_id rows))
  unfolding contains
  contains-snoc id [] row = refl
  contains-snoc id (r ∷ rows) row = ground (arith, contains-snoc id rows row)

  IsDistinct-snoc :
      (rows : List A) (row : A)
      → IsDistinct (map external_id rows)
      → contains (external_id row) (map external_id rows) ≡ false
      → IsDistinct (map external_id (rows ++ (row ∷ [])))
  unfolding contains
  IsDistinct-snoc [] row h new = (refl, tt)
  IsDistinct-snoc (r ∷ rows) row h new = (
    ground (
      arith,
      contains-snoc (external_id r) rows row,
      h.0,
      new,
      eq_iff (external_id r) (external_id row),
      eq_iff (external_id row) (external_id r),
    ),
    IsDistinct-snoc rows row h.1 (ground (arith, new)),
  )

  without_repeat-IsGathered :
      (b : Bool) (row : A) (g : Gathered A)
      → contains (external_id row) g.seen ≡ b
      → IsGathered g
      → IsGathered (without_repeat b (external_id row) row g)
  unfolding contains
  without_repeat-IsGathered true row g is h = h
  without_repeat-IsGathered false row g is h = record {
    distinct = IsDistinct-snoc g.all row h.distinct (sym (h.known (external_id row)) ∙ is);
    known = λ id. ground (arith, contains-snoc id g.all row, h.known id);
  }

  pub gather-IsGathered :
      (rows : List A) (g : Gathered A) → IsGathered g → IsGathered (gather rows g)
  unfolding gather
  gather-IsGathered [] g h = h
  gather-IsGathered (row ∷ rows) g h =
      gather-IsGathered rows _ (without_repeat-IsGathered _ row g refl h)
