-- ===== src/Login/Target.antt =====
-- Where a login leads.
use you_spin_me.Prelude.{
  ◌≡◌, ◌↔◌, ◌≢◌, inl, inr, refl, arith, Bool, true, false, not, Bool-cases, ◌&&◌, subst, Option,
  none, some, [], ◌∷◌, Bytes, codes, starts_with, contains, Lacks, ℕ,
}
use you_spin_me.Login.{safe_next}

-- A path from the root whose next character, if any, is not a slash too, and without backslashes.
abbrev pub IsLocal : Bytes → Type 0
IsLocal n = (rest : Bytes) × (n ≡ b'/' ∷ rest) × ((t : Bytes) → rest ≢ b'/' ∷ t) × Lacks b'\\' n

contains_iff : (c : ℕ) (s : Bytes) → (contains c s ≡ false) ↔ Lacks c s
unfolding contains
contains_iff c [] = ground arith
contains_iff c (x ∷ s) = ground (arith, contains_iff c s)

abbrev is_local : Bytes → Bool
is_local n =
    starts_with n (codes "/") && (not (starts_with n (codes "//")) && not (contains b'\\' n))

is_local_iff : (n : Bytes) → (is_local n ≡ true) ↔ IsLocal n
unfolding starts_with
is_local_iff [] = (λ h. absurd (ground arith), λ (rest, e, h, l). absurd (ground arith))
is_local_iff (c ∷ []) =
    let (to, from) = contains_iff b'\\' (c ∷ []) in
    (
      λ h. ([], ground arith, λ t e. absurd (ground arith), to (ground arith)),
      λ (rest, e, h, l). ground (arith, from l),
    )
is_local_iff (c ∷ d ∷ s) =
    let (to, from) = contains_iff b'\\' (c ∷ d ∷ s) in
    (
      λ h. (d ∷ s, ground arith, λ t e. absurd (ground arith), to (ground arith)),
      λ (rest, e, h, l).
          let other : d ≢ b'/' = λ same. h s (ground arith) in ground (arith, from l),
    )

root-IsLocal : IsLocal (codes "/")
root-IsLocal = ([], refl, λ t h. absurd (ground arith), ground arith)

-- The redirect target after a login is local whatever was asked for, and it is what was asked for if
-- that is local.
pub safe_next-IsLocal :
    (next : Option Bytes)
    → IsLocal (safe_next next) × ((n : Bytes) → next ≡ some n → IsLocal n → safe_next next ≡ n)
unfolding safe_next
safe_next-IsLocal none = (root-IsLocal, λ n h. absurd (ground arith))
safe_next-IsLocal (some n) = elim (Bool-cases (is_local n)) [
  | inl b ↦ (rw b ((is_local_iff n).0 b), λ m h l. rw b (ground arith))
  | inr b ↦ (
    rw b root-IsLocal,
    λ m h l.
        let same : m ≡ n = ground arith in
        absurd (ground (arith, (is_local_iff n).1 (subst IsLocal same l))),
  )
]
