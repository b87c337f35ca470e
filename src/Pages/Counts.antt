-- ===== src/Pages/Counts.antt =====
-- The numbers beside the states, above the table.
use you_spin_me.Prelude.{
  ℕ, ◌+◌, ◌≡◌, refl, arith, Bool, true, false, List, [], ◌∷◌, keep, length, All,
}
use you_spin_me.Schedule.{State, expired, critical, warning, unknown, fine, as_str}
use you_spin_me.Schedule.Urgency.{parse-as_str}
use you_spin_me.Views.{Outside, KeyRow}
use you_spin_me.Pages.{Filters, StateCount}
use you_spin_me.Pages.Listing.{insert_sorted, sort_by, sort_rows, same_state, search, table_of}

abbrev pub sum_counts : List StateCount → ℕ
sum_counts [] = 0
sum_counts (c ∷ cs) = c.count + sum_counts cs

module _ {A : Type 0} (le : A → A → Bool) where
  length-insert_sorted : (x : A) (xs : List A) → length (insert_sorted le x xs) ≡ length xs + 1
  unfolding insert_sorted
  length-insert_sorted x [] = refl
  length-insert_sorted x (y ∷ ys) = ground (arith, length-insert_sorted x ys)

  length-sort_by : (xs : List A) → length (sort_by le xs) ≡ length xs
  unfolding sort_by
  length-sort_by [] = refl
  length-sort_by (x ∷ xs) = omega (arith, length-insert_sorted x (sort_by le xs), length-sort_by xs)

abbrev rows_in : State → List KeyRow → ℕ
rows_in s rows = length (keep (λ r. same_state r.state s) rows)

abbrev hit : Bool → ℕ
hit true = 1
hit false = 0

rows_in-cons :
    (t : State) (r : KeyRow) (rows : List KeyRow)
    → rows_in t (r ∷ rows) ≡ hit (same_state r.state t) + rows_in t rows
rows_in-cons t r rows = ground arith

one_hit :
    (s : State)
    → hit (same_state s expired)
        + (hit (same_state s critical)
            + (hit (same_state s warning) + (hit (same_state s unknown) + hit (same_state s fine))))
      ≡ 1
one_hit expired = refl
one_hit critical = refl
one_hit warning = refl
one_hit unknown = refl
one_hit fine = refl

-- Every row is counted under one state.
length-rows_in :
    (rows : List KeyRow)
    → rows_in expired rows
        + (rows_in critical rows
            + (rows_in warning rows + (rows_in unknown rows + (rows_in fine rows + 0))))
      ≡ length rows
length-rows_in [] = refl
length-rows_in (r ∷ rows) = omega (
  arith,
  one_hit r.state,
  length-rows_in rows,
  rows_in-cons expired r rows,
  rows_in-cons critical r rows,
  rows_in-cons warning r rows,
  rows_in-cons unknown r rows,
  rows_in-cons fine r rows,
)

module _ (o : Outside) (filters : Filters) (rows : List KeyRow) (oob : Bool) where
  rows-count :
      (s : State)
      → length (table_of o (record filters { state = as_str s }) rows oob).rows
        ≡ rows_in s (search o filters rows)
  unfolding table_of sort_rows search
  rows-count s = rw (parse-as_str s) (length-sort_by _ _)

  -- The numbers beside the states add up to the rows that the search finds; and each is the number of
  -- rows that the table has when its state is asked for instead.
  pub table_of-counts :
      (sum_counts (table_of o filters rows oob).counts ≡ (table_of o filters rows oob).matching)
      × All
          (λ c. length (table_of o (record filters { state = c.state }) rows oob).rows ≡ c.count)
          (table_of o filters rows oob).counts
  unfolding table_of
  table_of-counts = (
    length-rows_in (search o filters rows),
    (
      rows-count expired,
      (rows-count critical, (rows-count warning, (rows-count unknown, (rows-count fine, tt)))),
    ),
  )
