-- ===== src/Persistence/Activities/Listing.antt =====
-- `List` of `activityRepo`, internal/infrastructure/persistence/activities.go.
use wealthfolio_connect_self.Prelude.{
  ℕ, String, Option, List, [], ◌∷◌, ◌≡◌, refl, ap, map, length, take, drop, zero, suc, ◌==◌,
  if◌then◌else◌,
}
use wealthfolio_connect_self.Domain.Brokerage.{Activity}
use wealthfolio_connect_self.Domain.Error.{wrapped, Fetched, ok, failed}
use wealthfolio_connect_self.Persistence.ActivityModel.{ActivityPo}
use wealthfolio_connect_self.Persistence.ActivityModel.Convert.{activity_to_domain}
use wealthfolio_connect_self.Queries.{ActivityFilter}

-- The conditions of the query: the account, and the two bounds of the trade date where they are set.
pub record ActivityConditions : Type 0 where
  pub account_id : String
  pub from_date : Option ℕ
  pub before_date : Option ℕ

-- The two queries of GORM: the count of the rows that meet the conditions, and the rows by
-- descending trade date and by id, with a LIMIT and an OFFSET.
pub record ActivityQueries (F D : Type 0) : Type 0 where
  pub count : ActivityConditions → D → Fetched ℕ
  pub find : ActivityConditions → ℕ → ℕ → D → Fetched (List (ActivityPo F))

unfoldable pub conditions_of : ActivityFilter → ActivityConditions
conditions_of f = record {
  account_id = f.account_id;
  from_date = f.start_date;
  before_date = f.end_date;
}

abbrev pub counted_rows :
    {F : Type 0} → ℕ → Fetched (List (ActivityPo F)) → Fetched (List (Activity F) × ℕ)
counted_rows total (ok rows) = ok (map activity_to_domain rows, total)
counted_rows total (failed e) = failed (wrapped "activities list" e)

abbrev pub after_count :
    {F : Type 0} → Fetched ℕ → Fetched (List (ActivityPo F)) → Fetched (List (Activity F) × ℕ)
after_count (ok total) found = counted_rows total found
after_count (failed e) found = failed (wrapped "activities count" e)

-- An offset below 0 is no offset of the filter here; a limit of 0 is the default.
unfoldable pub list_activities :
    {F D : Type 0} → ActivityQueries F D → ActivityFilter → D → Fetched (List (Activity F) × ℕ)
list_activities db f d =
    let limit = if f.limit == 0 then 1000 else f.limit in
    after_count (db.count (conditions_of f) d) (db.find (conditions_of f) limit f.offset d)

-- A database that answers both queries from the same rows, in one order.
pub record IsAnswering {F D : Type 0} (db : ActivityQueries F D) (d : D) : Type 0 where
  pub rows : ActivityConditions → List (ActivityPo F)
  pub counted : (c : ActivityConditions) → db.count c d ≡ ok (length (rows c))
  pub found :
      (c : ActivityConditions) (limit offset : ℕ)
      → db.find c limit offset d ≡ ok (take limit (drop offset (rows c)))

module _ {A B : Type 0} (f : A → B) where
  pub map-take : (n : ℕ) (xs : List A) → map f (take n xs) ≡ take n (map f xs)
  map-take zero xs = refl
  map-take (suc n) [] = refl
  map-take (suc n) (x ∷ xs) = ap (λ ys. f x ∷ ys) (map-take n xs)

  pub map-drop : (n : ℕ) (xs : List A) → map f (drop n xs) ≡ drop n (map f xs)
  map-drop zero xs = refl
  map-drop (suc n) [] = refl
  map-drop (suc n) (x ∷ xs) = map-drop n xs

  pub length-map : (xs : List A) → length (map f xs) ≡ length xs
  length-map [] = refl
  length-map (x ∷ xs) = ap suc (length-map xs)
