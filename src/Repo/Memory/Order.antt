-- ===== src/Repo/Memory/Order.antt =====
-- The order of the entries: `BTreeMap` keeps them ascending, with one entry for each key.
use you_spin_me.Prelude.{
  ◌≡◌, refl, arith, true, false, Bool-cases, List, [], ◌∷◌, All, Bytes, bytes_eq, bytes_eq_iff, inl,
  inr, subst,
}
use you_spin_me.Repo.Memory.{bytes_lt, insert_entry}

pub bytes_lt_trans :
    (a b c : Bytes) → bytes_lt a b ≡ true → bytes_lt b c ≡ true → bytes_lt a c ≡ true
unfolding bytes_lt
bytes_lt_trans a b [] h k = absurd (ground arith)
bytes_lt_trans a [] (z ∷ c) h k = absurd (ground arith)
bytes_lt_trans [] (y ∷ b) (z ∷ c) h k = refl
bytes_lt_trans (x ∷ a) (y ∷ b) (z ∷ c) h k = ground (arith, bytes_lt_trans a b c)

pub bytes_lt-total :
    (a b : Bytes) → bytes_eq a b ≡ false → bytes_lt a b ≡ false → bytes_lt b a ≡ true
unfolding bytes_lt bytes_eq
bytes_lt-total [] [] h k = ground arith
bytes_lt-total [] (y ∷ b) h k = ground arith
bytes_lt-total (x ∷ a) [] h k = refl
bytes_lt-total (x ∷ a) (y ∷ b) h k = ground (arith, bytes_lt-total a b)

pub bytes_lt_irrefl : (a : Bytes) → bytes_lt a a ≡ false
unfolding bytes_lt
bytes_lt_irrefl [] = refl
bytes_lt_irrefl (x ∷ a) = ground (arith, bytes_lt_irrefl a)

pub bytes_lt-ne : (a b : Bytes) → bytes_lt a b ≡ true → bytes_eq a b ≡ false
bytes_lt-ne a b h = elim (Bool-cases (bytes_eq a b)) [
  | inr e ↦ e
  | inl e ↦
      let same : a ≡ b = (bytes_eq_iff a b).0 e in
      absurd (cc (bytes_lt_irrefl b, subst (λ x. bytes_lt x b ≡ true) same h))
]

ne_sym : (a b : Bytes) → bytes_eq a b ≡ false → bytes_eq b a ≡ false
ne_sym a b h = ground (arith, bytes_eq_iff a b, bytes_eq_iff b a)

module _ {V : Type 0} where
  -- All keys of the entries are above `k`.
  abbrev pub IsAbove : Bytes → List (Bytes × V) → Type 0
  IsAbove k = All (λ e. bytes_lt k e.0 ≡ true)

  abbrev pub IsAscending : List (Bytes × V) → Type 0
  IsAscending [] = Unit
  IsAscending (e ∷ m) = IsAbove e.0 m × IsAscending m

  IsAbove-lt :
      (a b : Bytes) (m : List (Bytes × V)) → bytes_lt a b ≡ true → IsAbove b m → IsAbove a m
  IsAbove-lt a b [] h k = tt
  IsAbove-lt a b (e ∷ m) h k = (bytes_lt_trans a b e.0 h k.0, IsAbove-lt a b m h k.1)

  insert_entry-IsAbove :
      (a k : Bytes) (v : V) (m : List (Bytes × V))
      → bytes_lt a k ≡ true
      → IsAbove a m
      → IsAbove a (insert_entry k v m)
  unfolding insert_entry
  insert_entry-IsAbove a k v [] h l = (h, tt)
  insert_entry-IsAbove a k v ((j, w) ∷ m) h l = elim (Bool-cases (bytes_eq j k)) [
    | inl e ↦ rw e (h, l.1)
    | inr e ↦ elim (Bool-cases (bytes_lt k j)) [
      | inl e2 ↦ rw (e, e2) (h, (l.0, l.1))
      | inr e2 ↦ rw (e, e2) (l.0, insert_entry-IsAbove a k v m h l.1)
    ]
  ]

  pub insert_entry-IsAscending :
      (k : Bytes) (v : V) (m : List (Bytes × V)) → IsAscending m → IsAscending (insert_entry k v m)
  unfolding insert_entry
  insert_entry-IsAscending k v [] h = (tt, tt)
  insert_entry-IsAscending k v ((j, w) ∷ m) h = elim (Bool-cases (bytes_eq j k)) [
    | inl e ↦ rw e (subst (λ x. IsAbove x m) ((bytes_eq_iff j k).0 e) h.0, h.1)
    | inr e ↦ elim (Bool-cases (bytes_lt k j)) [
      | inl e2 ↦ rw (e, e2) ((e2, IsAbove-lt k j m e2 h.0), (h.0, h.1))
      | inr e2 ↦
          rw (e, e2)
            (
              insert_entry-IsAbove j k v m (bytes_lt-total k j (ne_sym j k e) e2) h.0,
              insert_entry-IsAscending k v m h.1,
            )
    ]
  ]
