-- ===== src/Pages/Examples.antt =====
-- A table of three keys.
use you_spin_me.Prelude.{
  ◌≡◌, refl, true, false, none, some, List, [], ◌∷◌, map, keep, length, All, Bytes, codes, pos,
  bytes_eq, bytes_ne, ◌↔◌,
}
use mathlib.Core.List.{Perm}
use you_spin_me.Time.{Timestamp}
use mathlib.Core.Option.{Option}
use you_spin_me.Schedule.{State, critical, unknown}
use you_spin_me.Schedule
use you_spin_me.Validation.Examples.{plain_crates}
use you_spin_me.Views.{Outside, KeyRow}
use you_spin_me.Pages.{Filters}
use you_spin_me.Repo.Memory.{bytes_lt}
use you_spin_me.Pages.Listing.{row_le, sort_rows, sort_by, insert_sorted, search, table_of}
use you_spin_me.Pages.Sorting.{Sort, by_urgency, NotAfter, IsOrdered, sort_rows-IsSorted}
use you_spin_me.Pages.StableSort.{equal}
use you_spin_me.Pages.Counts.{sum_counts, table_of-counts}

abbrev outside : Outside
outside = record { crates = plain_crates; url_text = λ u. u; to_lowercase = λ s. s }

abbrev row : Bytes → State → Option Timestamp → KeyRow
row name state deadline = record {
  name = name;
  display_name = name;
  provider = codes "github";
  owner = [];
  state = state;
  deadline = deadline;
  deadline_date = [];
  deadline_rel = [];
  deadline_kind = [];
  last_rotated = none;
  last_rotated_rel = codes "never";
  targets_total = 0;
  targets_failed = 0;
  renew_url = none;
  valid = true;
}

abbrev rows : List KeyRow
rows =
    row (codes "b") unknown none
    ∷ row (codes "c") critical (some (pos 5))
    ∷ row (codes "a") unknown none
    ∷ []

abbrev filters : Filters
filters = record { q = []; state = codes "unknown"; provider = []; sort = [] }

-- The known deadline comes first, then the others by name; the state's filter leaves these.
table_tests :
    (map (λ r. r.name) (sort_rows outside [] rows) ≡ codes "c" ∷ codes "a" ∷ codes "b" ∷ [])
    × (map (λ r. r.name) (table_of outside filters rows false).rows ≡ codes "a" ∷ codes "b" ∷ [])
    × ((table_of outside filters rows false).matching ≡ 3)
unfolding table_of search sort_rows sort_by insert_sorted row_le bytes_lt bytes_eq Schedule.parse
table_tests = (refl, refl, refl)

urgently : Sort []
unfolding bytes_eq
urgently = by_urgency (bytes_ne _ _ refl) (bytes_ne _ _ refl)

sort_rows-IsSorted_example :
    Perm (sort_rows outside [] rows) rows
    × IsOrdered (NotAfter outside urgently) (sort_rows outside [] rows)
    × ((r : KeyRow)
        → keep (equal (row_le outside []) r) (sort_rows outside [] rows)
          ≡ keep (equal (row_le outside []) r) rows)
    × ((a b : KeyRow)
        → (equal (row_le outside []) a b ≡ true)
          ↔ (NotAfter outside urgently a b × NotAfter outside urgently b a))
sort_rows-IsSorted_example = sort_rows-IsSorted outside [] urgently rows

table_of-counts_example :
    (sum_counts (table_of outside filters rows false).counts
      ≡ (table_of outside filters rows false).matching)
    × All
        (λ c.
          length (table_of outside (record filters { state = c.state }) rows false).rows ≡ c.count)
        (table_of outside filters rows false).counts
table_of-counts_example = table_of-counts outside filters rows false
