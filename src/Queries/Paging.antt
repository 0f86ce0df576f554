-- ===== src/Queries/Paging.antt =====
-- Reading all activities of an account page by page, with `ActivityService.List` of
-- internal/application/brokerage/activity_holding.go.
use mathlib.Core.List.{◌++◌}
use wealthfolio_connect_self.Prelude.{
  ℕ, map, ◌==◌, false, Option, none, some, zero, suc, ◌+◌, ◌≤◌, ◌<◌, ◌≡◌, refl, sym, List, ltb,
  length, take, drop, if◌then◌else◌, arith, Bool-cases, inl, inr,
}
use wealthfolio_connect_self.Prelude.Int.{ℤ, pos, pos_part}
use wealthfolio_connect_self.Prelude.Sublists.{
  length-drop, take-all, take-drop, drop-drop, length-take_enough, length-take_positive,
}
use wealthfolio_connect_self.Domain.Brokerage.{Account, Activity}
use wealthfolio_connect_self.Domain.Error.{ok}
use wealthfolio_connect_self.Persistence.ActivityModel.Convert.{activity_to_domain}
use wealthfolio_connect_self.Persistence.Activities.Listing.{
  ActivityQueries, IsAnswering, conditions_of, list_activities, map-take, map-drop, length-map,
}
use wealthfolio_connect_self.Queries.{
  Answer, answer, account_not_found, failure, ActivityQuery, PaginatedActivities, Stores,
  clamp_limit, filter_of, list,
}

-- The services over the repository of the activities.
abbrev pub with_activities : {F D : Type 0} → Stores F D → ActivityQueries F D → Stores F D
with_activities r db = record r { list_activities = list_activities db }

-- The page is the part of `matching` that its offset and limit name.
unfoldable IsPaged : {F D : Type 0} → Stores F D → ActivityQuery → List (Activity F) → D → Type 0
IsPaged r q matching d =
    (offset : ℤ)
    → r.list_activities (filter_of (record q { offset = offset })) d
      ≡ ok (take (clamp_limit q.limit) (drop (pos_part offset) matching), length matching)

-- A client that asks for the next page while there is one. It has no answer where a page is refused,
-- or where it is not done when the fuel ends.
abbrev pub next_items :
    {F : Type 0}
    → Answer (PaginatedActivities F)
    → Option (List (Activity F))
    → Option (List (Activity F))
next_items (answer page) (some rest) =
    some (if page.has_more then page.items ++ rest else page.items)
next_items (answer page) none = if page.has_more then none else some page.items
next_items account_not_found rest = none
next_items (failure e) rest = none

abbrev pub after_page : {F : Type 0} → ℕ → Answer (PaginatedActivities F) → ℕ
after_page offset (answer page) = offset + length page.items
after_page offset account_not_found = offset
after_page offset (failure e) = offset

pub read_all : {F D : Type 0} → Stores F D → ActivityQuery → ℕ → ℕ → D → Option (List (Activity F))
read_all r q zero offset d = none
read_all r q (suc fuel) offset d =
    let page = list r (record q { offset = pos offset }) d in
    next_items page (read_all r q fuel (after_page offset page) d)

clamp_limit-positive : (limit : ℤ) → 0 < clamp_limit limit
unfolding clamp_limit
clamp_limit-positive limit = ground arith

module _ {A : Type 0} (matching : List A) (offset size : ℕ) where
  -- A page behind which there is more is full, and the last one has the rest.
  page_full :
      offset + length (take size (drop offset matching)) < length matching
      → take size (drop offset matching)
          ++ drop (offset + length (take size (drop offset matching))) matching
        ≡ drop offset matching
  page_full more =
      let full : length (take size (drop offset matching)) ≡ size =
        elim (Bool-cases (ltb size (length (drop offset matching)))) [
          | inl h ↦ length-take_enough size (drop offset matching) (ground arith)
          | inr h ↦
              let whole = take-all size (drop offset matching) (ground arith) in
              ground (arith, whole, length-drop offset matching)
        ] in
      rw (full, sym (drop-drop offset size matching)) (take-drop size (drop offset matching))

  page_last :
      length matching ≤ offset + length (take size (drop offset matching))
      → take size (drop offset matching) ≡ drop offset matching
  page_last last = elim (Bool-cases (ltb size (length (drop offset matching)))) [
    | inl h ↦
        ground (arith, length-take_enough size (drop offset matching), length-drop offset matching)
    | inr h ↦ take-all size (drop offset matching) (ground arith)
  ]

module _ {F D : Type 0} (r : Stores F D) (q : ActivityQuery) (matching : List (Activity F)) (d : D)
    (acc : Account F) (stored : r.get_account q.account_id d ≡ ok acc)
    (paged : IsPaged r q matching d) where
  read_all-drop :
      (fuel offset : ℕ)
      → offset ≤ length matching
      → length matching < offset + fuel
      → read_all r q fuel offset d ≡ some (drop offset matching)
  unfolding read_all list IsPaged filter_of
  read_all-drop zero offset within h = absurd (omega (arith, within, h))
  read_all-drop (suc fuel) offset within h =
      let size = clamp_limit q.limit in
      let items = take size (drop offset matching) in
      ground (
        arith,
        h,
        stored,
        paged (pos offset),
        page_full matching offset size,
        page_last matching offset size,
        read_all-drop fuel (offset + length items),
        clamp_limit-positive q.limit,
        length-drop offset matching,
        length-take_positive size (drop offset matching),
      )

  read_all-all : (fuel : ℕ) → length matching < fuel → read_all r q fuel 0 d ≡ some matching
  read_all-all fuel h = read_all-drop fuel 0 (omega arith) (omega (arith, h))

module _ {F D : Type 0} (r : Stores F D) (db : ActivityQueries F D) (q : ActivityQuery) (d : D)
    (acc : Account F) (stored : r.get_account q.account_id d ≡ ok acc)
    (answering : IsAnswering db d) where
  -- The activities that match the query, in the order of the database.
  abbrev pub matching_of : List (Activity F)
  matching_of = map activity_to_domain (answering.rows (conditions_of (filter_of q)))

  with_activities-IsPaged : IsPaged (with_activities r db) q matching_of d
  unfolding IsPaged list_activities filter_of conditions_of
  with_activities-IsPaged offset =
      let c = conditions_of (filter_of q) in
      let rows = answering.rows c in
      let size = clamp_limit q.limit in
      let some_limit : (size == 0) ≡ false = ground (arith, clamp_limit-positive q.limit) in
      rw
        (
          some_limit,
          answering.counted c,
          answering.found c size (pos_part offset),
          map-take activity_to_domain size (drop (pos_part offset) rows),
          map-drop activity_to_domain (pos_part offset) rows,
          length-map activity_to_domain rows,
        )
        refl

  -- A client that starts at offset 0 and asks for the next page while `has_more` says so is done
  -- after as many pages as there are matching activities, and one, at most, and then has read
  -- every one of them exactly once and in order, whatever limit it asks for. The account must be
  -- there, and the database must answer the queries of the repository's List from the same rows
  -- throughout.
  pub read_all-Complete :
      (fuel : ℕ)
      → length matching_of < fuel
      → read_all (with_activities r db) q fuel 0 d ≡ some matching_of
  read_all-Complete fuel h =
      read_all-all (with_activities r db) q matching_of d acc stored with_activities-IsPaged fuel h
