-- ===== src/Pages/StableSort.antt =====
-- What `sort_by` of the standard library promises, proved of the sort that stands for it: a stable sort
-- by any order.
use you_spin_me.Prelude.{
  ◌≡◌, inl, inr, refl, arith, Bool, true, false, ◌&&◌, Bool-cases, List, [], ◌∷◌, All, keep,
}
use mathlib.Core.List.{Perm}
use mathlib.Core.List.Perm
use you_spin_me.Pages.Listing.{insert_sorted, sort_by}

-- Of any two, one is before the other; and the order is transitive.
pub record IsOrder {A : Type 0} (le : A → A → Bool) : Type 0 where
  pub total : (a b : A) → le a b ≡ false → le b a ≡ true
  pub trans : (a b c : A) → le a b ≡ true → le b c ≡ true → le a c ≡ true

module _ {A : Type 0} (le : A → A → Bool) where
  abbrev pub IsBelow : A → List A → Type 0
  IsBelow x = All (λ y. le x y ≡ true)

  -- Each is before all that follow.
  abbrev pub IsSorted : List A → Type 0
  IsSorted [] = Unit
  IsSorted (x ∷ xs) = IsBelow x xs × IsSorted xs

  -- Neither is before the other.
  abbrev pub equal : A → A → Bool
  equal z x = le z x && le x z

  insert_sorted-Perm : (x : A) (xs : List A) → Perm (insert_sorted le x xs) (x ∷ xs)
  unfolding insert_sorted
  insert_sorted-Perm x [] = Perm.rfl
  insert_sorted-Perm x (y ∷ ys) = elim (Bool-cases (le x y)) [
    | inl e ↦ rw e Perm.rfl
    | inr e ↦ rw e (Perm.trans (Perm.cons y (insert_sorted-Perm x ys)) (Perm.swap x y ys))
  ]

  pub sort_by-Perm : (xs : List A) → Perm (sort_by le xs) xs
  unfolding sort_by
  sort_by-Perm [] = Perm.rfl
  sort_by-Perm (x ∷ xs) =
      Perm.trans (insert_sorted-Perm x (sort_by le xs)) (Perm.cons x (sort_by-Perm xs))

  module _ (order : IsOrder le) where
    IsBelow-le : (x y : A) (ys : List A) → le x y ≡ true → IsBelow y ys → IsBelow x ys
    IsBelow-le x y [] h k = tt
    IsBelow-le x y (z ∷ zs) h k = (order.trans x y z h k.0, IsBelow-le x y zs h k.1)

    insert_sorted-IsBelow :
        (z x : A) (ys : List A) → le z x ≡ true → IsBelow z ys → IsBelow z (insert_sorted le x ys)
    unfolding insert_sorted
    insert_sorted-IsBelow z x [] h k = (h, tt)
    insert_sorted-IsBelow z x (y ∷ ys) h k = elim (Bool-cases (le x y)) [
      | inl e ↦ rw e (h, k)
      | inr e ↦ rw e (k.0, insert_sorted-IsBelow z x ys h k.1)
    ]

    insert_sorted-IsSorted : (x : A) (xs : List A) → IsSorted xs → IsSorted (insert_sorted le x xs)
    unfolding insert_sorted
    insert_sorted-IsSorted x [] h = (tt, tt)
    insert_sorted-IsSorted x (y ∷ ys) h = elim (Bool-cases (le x y)) [
      | inl e ↦ rw e ((e, IsBelow-le x y ys e h.0), h)
      | inr e ↦
          rw e
            (insert_sorted-IsBelow y x ys (order.total x y e) h.0, insert_sorted-IsSorted x ys h.1)
    ]

    pub sort_by-IsSorted : (xs : List A) → IsSorted (sort_by le xs)
    unfolding sort_by
    sort_by-IsSorted [] = tt
    sort_by-IsSorted (x ∷ xs) = insert_sorted-IsSorted x (sort_by le xs) (sort_by-IsSorted xs)

    equal-le : (z x y : A) → equal z x ≡ true → le x y ≡ false → equal z y ≡ false
    equal-le z x y h k = ground (arith, order.trans x z y)

    keep-insert_sorted :
        (z x : A) (ys : List A) → keep (equal z) (insert_sorted le x ys) ≡ keep (equal z) (x ∷ ys)
    unfolding insert_sorted
    keep-insert_sorted z x [] = refl
    keep-insert_sorted z x (y ∷ ys) = ground (arith, keep-insert_sorted z x ys, equal-le z x y)

    -- The sort is stable: the order of equal elements is kept.
    pub keep-sort_by : (z : A) (xs : List A) → keep (equal z) (sort_by le xs) ≡ keep (equal z) xs
    unfolding sort_by
    keep-sort_by z [] = refl
    keep-sort_by z (x ∷ xs) =
        ground (arith, keep-insert_sorted z x (sort_by le xs), keep-sort_by z xs)
