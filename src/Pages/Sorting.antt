-- ===== src/Pages/Sorting.antt =====
-- The orders of the rows (`sort_rows` of src/web/pages.rs), and that the table is in them.
use you_spin_me.Prelude.{
  ◌≡◌, ◌≢◌, ◌⊎◌, ◌↔◌, ◌≤ℤ◌, ℤ, leb_ℤ, inl, inr, refl, arith, true, false, Bool-cases, Option, none,
  some, List, [], ◌∷◌, All, keep, Bytes, codes, bytes_eq, bytes_eq_iff, subst,
}
use mathlib.Core.List.{Perm}
use you_spin_me.Time.{Timestamp}
use you_spin_me.Repo.Memory.{bytes_lt}
use you_spin_me.Repo.Memory.Order.{bytes_lt_trans, bytes_lt-total, bytes_lt_irrefl}
use you_spin_me.Views.{Outside, KeyRow}
use you_spin_me.Pages.Listing.{bytes_le, option_le, urgency_le, row_le, sort_rows}
use you_spin_me.Pages.StableSort.{
  IsOrder, IsBelow, IsSorted, equal, sort_by-Perm, sort_by-IsSorted, keep-sort_by,
}

bytes_le_trans : (a b c : Bytes) → bytes_le a b ≡ true → bytes_le b c ≡ true → bytes_le a c ≡ true
bytes_le_trans a b c h k = elim (Bool-cases (bytes_eq b c)) [
  | inl e ↦ subst (λ x. bytes_le a x ≡ true) ((bytes_eq_iff b c).0 e) h
  | inr e ↦
      ground (arith, bytes_lt-total c b, bytes_lt_trans b c a, bytes_eq_iff b c, bytes_eq_iff c b)
]

bytes_le-total : (a b : Bytes) → bytes_le a b ≡ false → bytes_le b a ≡ true
bytes_le-total a b h = ground (arith, bytes_lt_trans a b a, bytes_lt-total a b, bytes_lt_irrefl a)

option_le-total : (a b : Option Timestamp) → option_le a b ≡ false → option_le b a ≡ true
option_le-total none b h = absurd (ground arith)
option_le-total (some x) none h = refl
option_le-total (some x) (some y) h = ground arith

option_le_trans :
    (a b c : Option Timestamp) → option_le a b ≡ true → option_le b c ≡ true → option_le a c ≡ true
option_le_trans none b c h k = refl
option_le_trans (some x) none c h k = absurd (ground arith)
option_le_trans (some x) (some y) none h k = absurd (ground arith)
option_le_trans (some x) (some y) (some z) h k = ground arith

urgency_le-total :
    (x y : Option Timestamp) (a b : Bytes) → urgency_le x y a b ≡ false → urgency_le y x b a ≡ true
urgency_le-total none none a b h = bytes_le-total a b h
urgency_le-total none (some y) a b h = refl
urgency_le-total (some x) none a b h = ground arith
urgency_le-total (some x) (some y) a b h = ground arith

urgency_le_trans :
    (x y z : Option Timestamp) (a b c : Bytes)
    → urgency_le x y a b ≡ true
    → urgency_le y z b c ≡ true
    → urgency_le x z a c ≡ true
urgency_le_trans none none none a b c h k = bytes_le_trans a b c h k
urgency_le_trans none none (some z) a b c h k = k
urgency_le_trans none (some y) z a b c h k = absurd (ground arith)
urgency_le_trans (some x) y none a b c h k = refl
urgency_le_trans (some x) none (some z) a b c h k = absurd (ground arith)
urgency_le_trans (some x) (some y) (some z) a b c h k = ground arith

module _ (o : Outside) (sort : Bytes) where
  row_le-IsOrder : IsOrder (row_le o sort)
  unfolding row_le
  row_le-IsOrder = elim (Bool-cases (bytes_eq sort (codes "name"))) [
    | inl e ↦ record {
      total = λ a b. rw e (bytes_le-total _ _);
      trans = λ a b c. rw e (bytes_le_trans _ _ _);
    }
    | inr e ↦ elim (Bool-cases (bytes_eq sort (codes "rotated"))) [
      | inl e2 ↦ record {
        total = λ a b. rw (e, e2) (option_le-total a.last_rotated b.last_rotated);
        trans = λ a b c. rw (e, e2) (option_le_trans a.last_rotated b.last_rotated c.last_rotated);
      }
      | inr e2 ↦ record {
        total = λ a b. rw (e, e2) (urgency_le-total a.deadline b.deadline a.name b.name);
        trans = λ a b c.
            rw (e, e2) (urgency_le_trans a.deadline b.deadline c.deadline a.name b.name c.name);
      }
    ]
  ]

-- The orders of texts by their bytes, and of instants that may be missing: first, or last and then by
-- the names.
abbrev pub AtMost : Bytes → Bytes → Type 0
AtMost a b = (a ≡ b) ⊎ (bytes_lt a b ≡ true)

abbrev pub MissingFirst : Option Timestamp → Option Timestamp → Type 0
MissingFirst none b = Unit
MissingFirst (some a) none = ⊥
MissingFirst (some a) (some b) = a ≤ℤ b

abbrev pub MissingLast : Option Timestamp → Option Timestamp → Bytes → Bytes → Type 0
MissingLast none none a b = AtMost a b
MissingLast none (some y) a b = ⊥
MissingLast (some x) none a b = Unit
MissingLast (some x) (some y) a b = x ≤ℤ y

bytes_le_iff : (a b : Bytes) → (bytes_le a b ≡ true) ↔ AtMost a b
bytes_le_iff a b =
    ground (arith, bytes_lt-total a b, bytes_lt_trans a b a, bytes_lt_irrefl a, bytes_eq_iff a b)

leb_ℤ_iff : (a b : ℤ) → (leb_ℤ a b ≡ true) ↔ (a ≤ℤ b)
leb_ℤ_iff a b = ground arith

option_le_iff : (a b : Option Timestamp) → (option_le a b ≡ true) ↔ MissingFirst a b
option_le_iff none b = (λ h. tt, λ h. refl)
option_le_iff (some a) none = (λ h. absurd (ground arith), λ h. absurd h)
option_le_iff (some a) (some b) = leb_ℤ_iff a b

urgency_le_iff :
    (x y : Option Timestamp) (a b : Bytes) → (urgency_le x y a b ≡ true) ↔ MissingLast x y a b
urgency_le_iff none none a b = bytes_le_iff a b
urgency_le_iff none (some y) a b = (λ h. absurd (ground arith), λ h. absurd h)
urgency_le_iff (some x) none a b = (λ h. tt, λ h. refl)
urgency_le_iff (some x) (some y) a b = leb_ℤ_iff x y

-- What can be asked for: "name", "rotated", or any other text.
pub data Sort : Bytes → Type 0 where
  by_name : Sort (codes "name")
  by_rotation : Sort (codes "rotated")
  by_urgency : {sort : Bytes} → sort ≢ codes "name" → sort ≢ codes "rotated" → Sort sort

-- A row is not after another: by the display names without regard to case; by the last rotation, with
-- keys that were never rotated first; or by the deadline, with unknown ones last and by their names.
abbrev pub NotAfter : Outside → {sort : Bytes} → Sort sort → KeyRow → KeyRow → Type 0
NotAfter o by_name a b = AtMost (o.to_lowercase a.display_name) (o.to_lowercase b.display_name)
NotAfter o by_rotation a b = MissingFirst a.last_rotated b.last_rotated
NotAfter o (by_urgency n r) a b = MissingLast a.deadline b.deadline a.name b.name

row_le_iff :
    (o : Outside) (sort : Bytes) (asked : Sort sort) (a b : KeyRow)
    → (row_le o sort a b ≡ true) ↔ NotAfter o asked a b
unfolding row_le
row_le_iff o _ by_name a b = unfold bytes_eq in bytes_le_iff _ _
row_le_iff o _ by_rotation a b = unfold bytes_eq in option_le_iff _ _
row_le_iff o sort (by_urgency n r) a b =
    let not_name : bytes_eq sort (codes "name") ≡ false =
      ground (arith, bytes_eq_iff sort (codes "name")) in
    let not_rotated : bytes_eq sort (codes "rotated") ≡ false =
      ground (arith, bytes_eq_iff sort (codes "rotated")) in
    rw (not_name, not_rotated) (urgency_le_iff a.deadline b.deadline a.name b.name)

-- Each row is not after any that follows.
abbrev pub IsOrdered : (KeyRow → KeyRow → Type 0) → List KeyRow → Type 0
IsOrdered R [] = Unit
IsOrdered R (a ∷ rows) = All (R a) rows × IsOrdered R rows

module _ (o : Outside) (sort : Bytes) (asked : Sort sort) where
  below-NotAfter :
      (a : KeyRow) (rows : List KeyRow)
      → IsBelow (row_le o sort) a rows
      → All (NotAfter o asked a) rows
  below-NotAfter a [] h = tt
  below-NotAfter a (b ∷ rows) h = ((row_le_iff o sort asked a b).0 h.0, below-NotAfter a rows h.1)

  sorted-IsOrdered :
      (rows : List KeyRow) → IsSorted (row_le o sort) rows → IsOrdered (NotAfter o asked) rows
  sorted-IsOrdered [] h = tt
  sorted-IsOrdered (a ∷ rows) h = (below-NotAfter a rows h.0, sorted-IsOrdered rows h.1)

  tied_iff :
      (a b : KeyRow)
      → (equal (row_le o sort) a b ≡ true) ↔ (NotAfter o asked a b × NotAfter o asked b a)
  tied_iff a b =
      let (to, from) = row_le_iff o sort asked a b in
      let (to', from') = row_le_iff o sort asked b a in
      (
        λ h. (to (ground arith), to' (ground arith)),
        λ (h, k). let x = from h in let y = from' k in ground arith,
      )

  -- The table's rows are those that it is given, in another order. None is after one that follows:
  -- asked for "name", in the order of the display names without regard to case; for "rotated", in that
  -- of the last rotation, keys never rotated first; else in that of the deadline, unknown ones last
  -- and by their names. Rows of which neither is after the other keep their order.
  pub sort_rows-IsSorted :
      (rows : List KeyRow)
      → Perm (sort_rows o sort rows) rows
        × IsOrdered (NotAfter o asked) (sort_rows o sort rows)
        × ((row : KeyRow)
            → keep (equal (row_le o sort) row) (sort_rows o sort rows)
              ≡ keep (equal (row_le o sort) row) rows)
        × ((a b : KeyRow)
            → (equal (row_le o sort) a b ≡ true) ↔ (NotAfter o asked a b × NotAfter o asked b a))
  unfolding sort_rows
  sort_rows-IsSorted rows = (
    sort_by-Perm (row_le o sort) rows,
    sorted-IsOrdered _ (sort_by-IsSorted (row_le o sort) (row_le-IsOrder o sort) rows),
    λ row. keep-sort_by (row_le o sort) (row_le-IsOrder o sort) row rows,
    tied_iff,
  )
