-- ===== src/Pages/Listing.antt =====
-- The list of keys: `index` of src/web/pages.rs. `sort_by` and `dedup` of the standard library are
-- written out: a stable sort, here by insertion.
use you_spin_me.Prelude.{
  Bool, true, false, not, ◌||◌, Option, none, some, List, [], ◌∷◌, map, keep, length, is_nil,
  if◌then◌else◌, Result, Bytes, codes, bytes_eq, leb_ℤ,
}
use you_spin_me.Time.{Timestamp}
use you_spin_me.Repo.Memory.{bytes_lt}
use you_spin_me.Schedule
use you_spin_me.Schedule.{State, all_states, expired, critical, warning, unknown, fine}
use you_spin_me.Session.{AppError, Session}
use you_spin_me.Config.{thresholds}
use you_spin_me.Views.{Outside, KeyRow, row_of, matches, state_label}
use you_spin_me.Rotator.{World}
use you_spin_me.Pages.{
  Filters, StateCount, KeysTable, index, keys_table, Reply, Headers, App, layout_of, is_htmx,
  rendered,
}

abbrev pub bytes_le : Bytes → Bytes → Bool
bytes_le a b = not (bytes_lt b a)

-- `Ord` of `Option<Timestamp>`: none comes first.
abbrev pub option_le : Option Timestamp → Option Timestamp → Bool
option_le none b = true
option_le (some a) none = false
option_le (some a) (some b) = leb_ℤ a b

-- By deadline, unknown ones last and by name.
abbrev pub urgency_le : Option Timestamp → Option Timestamp → Bytes → Bytes → Bool
urgency_le (some x) (some y) a b = leb_ℤ x y
urgency_le (some x) none a b = true
urgency_le none (some y) a b = false
urgency_le none none a b = bytes_le a b

-- `Less` or `Equal` of the three orders.
unfoldable pub row_le : Outside → Bytes → KeyRow → KeyRow → Bool
row_le o sort a b =
    if bytes_eq sort (codes "name")
    then bytes_le (o.to_lowercase a.display_name) (o.to_lowercase b.display_name)
    else if bytes_eq sort (codes "rotated")
    then option_le a.last_rotated b.last_rotated
    else urgency_le a.deadline b.deadline a.name b.name

module _ {A : Type 0} (le : A → A → Bool) where
  unfoldable pub insert_sorted : A → List A → List A
  insert_sorted x [] = x ∷ []
  insert_sorted x (y ∷ ys) = if le x y then x ∷ y ∷ ys else y ∷ insert_sorted x ys

  unfoldable pub sort_by : List A → List A
  sort_by [] = []
  sort_by (x ∷ xs) = insert_sorted x (sort_by xs)

unfoldable pub sort_rows : Outside → Bytes → List KeyRow → List KeyRow
sort_rows o sort rows = sort_by (row_le o sort) rows

-- Neighbours that are equal become one.
unfoldable pub dedup : List Bytes → List Bytes
dedup [] = []
dedup (x ∷ []) = x ∷ []
dedup (x ∷ y ∷ ys) = let more = dedup (y ∷ ys) in if bytes_eq x y then more else x ∷ more

abbrev pub same_state : State → State → Bool
same_state expired expired = true
same_state critical critical = true
same_state warning warning = true
same_state unknown unknown = true
same_state fine fine = true
same_state _ _ = false

abbrev pub wants : Option State → State → Bool
wants none s = true
wants (some w) s = same_state s w

abbrev pub is_wanted : Option State → State → Bool
is_wanted none s = false
is_wanted (some w) s = same_state w s

abbrev pub count_of : List KeyRow → Option State → State → StateCount
count_of searched wanted s = record {
  state = Schedule.as_str s;
  label = state_label s;
  count = length (keep (λ r. same_state r.state s) searched);
  active = is_wanted wanted s;
}

-- The rows that pass the search and the provider's filter.
unfoldable pub search : Outside → Filters → List KeyRow → List KeyRow
search o filters rows =
    keep (λ r. is_nil filters.provider || bytes_eq r.provider filters.provider)
      (keep (λ r. is_nil filters.q || matches o r filters.q) rows)

-- What the table shows.
unfoldable pub table_of : Outside → Filters → List KeyRow → Bool → KeysTable
table_of o filters rows oob =
    let searched = search o filters rows in
    let wanted = Schedule.parse filters.state in
    record {
      rows = sort_rows o filters.sort (keep (λ r. wants wanted r.state) searched);
      total = length rows;
      matching = length searched;
      counts = map (count_of searched wanted) all_states;
      filters = filters;
      oob = oob;
    }

-- `index`
unfoldable pub show_index :
    {R W : Type 0}
    → App R W
    → World R W
    → Session
    → (jar : Bytes → Option Bytes) → Headers
    → Filters
    → Timestamp
    → Result AppError Reply
show_index app w session jar headers filters now =
    let o = app.crates.views in
    let keys = app.rotator.repository.list w.repo in
    let rows = map (λ k. row_of o k (thresholds app.cfg) now) keys in
    let providers = dedup (sort_by bytes_le (map (λ r. r.provider) rows)) in
    if is_htmx headers (codes "keys-table")
    then rendered app.crates [] (keys_table (table_of o filters rows true))
    else rendered app.crates [] (
        index (record {
          layout = layout_of app session jar (codes "API keys");
          table = table_of o filters rows false;
          providers = providers;
        }))
