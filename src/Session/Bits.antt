-- ===== src/Session/Bits.antt =====
-- Bitwise operations that come out zero, and `constant_time_eq`.
use you_spin_me.Prelude.{
  ℕ, zero, suc, ◌/◌, ◌%◌, ◌≤◌, ◌≡◌, ◌==◌, ◌↔◌, refl, sym, ◌∙◌, inl, inr, arith, true, Bool-cases,
  [], ◌∷◌, length, Bytes,
}
use Prim.Native.Nat.{bit_or, bit_xor, digits, differ, max, bit_xor-bitwise, bit_or-bitwise}
use mathlib.Core.Path.{ap₂}
use you_spin_me.Session.{differences, constant_time_eq}

differ-eq-zero : (x y : ℕ) → differ x y ≡ 0 → x ≡ y
differ-eq-zero zero y h = omega (arith, h)
differ-eq-zero (suc x) zero h = absurd (omega (arith, h))
differ-eq-zero (suc x) (suc y) h = omega (arith, differ-eq-zero x y h)

differ_self : (x : ℕ) → differ x x ≡ 0
differ_self zero = refl
differ_self (suc x) = differ_self x

xor_digits-zero : (n a b : ℕ) → a ≤ n → digits (λ b. b) differ n a b ≡ 0 → a ≡ b
xor_digits-zero zero a b l h = omega (arith, h, l)
xor_digits-zero (suc n) zero b l h = omega (arith, h)
xor_digits-zero (suc n) (suc a) b l h = omega (
  arith,
  xor_digits-zero n (suc a / 2) (b / 2) (omega arith) (omega (arith, h)),
  differ-eq-zero (suc a % 2) (b % 2) (omega (arith, h)),
)

xor_digits_self : (n a : ℕ) → a ≤ n → digits (λ b. b) differ n a a ≡ 0
xor_digits_self zero a l = omega arith
xor_digits_self (suc n) zero l = refl
xor_digits_self (suc n) (suc a) l =
    omega (arith, xor_digits_self n (suc a / 2) (omega arith), differ_self (suc a % 2))

xor_digits : (a b : ℕ) → bit_xor a b ≡ digits (λ b. b) differ a a b
xor_digits a b = λ i. bit_xor-bitwise a b i

or_digits : (a b : ℕ) → bit_or a b ≡ digits (λ b. b) max a a b
or_digits a b = λ i. bit_or-bitwise a b i

bit_xor-eq-zero_iff : (a b : ℕ) → (bit_xor a b ≡ 0) ↔ (a ≡ b)
bit_xor-eq-zero_iff a b = (
  λ h. xor_digits-zero a a b (omega arith) (sym (xor_digits a b) ∙ h),
  λ e. rw (← e) (xor_digits a a ∙ xor_digits_self a a (omega arith)),
)

or_digits-zero : (n a b : ℕ) → a ≤ n → digits (λ b. b) max n a b ≡ 0 → (a ≡ 0) × (b ≡ 0)
or_digits-zero zero a b l h = (omega (arith, l), h)
or_digits-zero (suc n) zero b l h = (refl, h)
or_digits-zero (suc n) (suc a) b l h =
    let (high, high') = or_digits-zero n (suc a / 2) (b / 2) (omega arith) (omega (arith, h)) in
    absurd (omega (arith, h, high))

bit_or-eq-zero_iff : (a b : ℕ) → (bit_or a b ≡ 0) ↔ ((a ≡ 0) × (b ≡ 0))
bit_or-eq-zero_iff a b = (
  λ h. or_digits-zero a a b (omega arith) (sym (or_digits a b) ∙ h),
  λ (e, e'). rw (e, e') (or_digits 0 0),
)

differences_iff :
    (acc : ℕ) (a b : Bytes)
    → length a ≡ length b
    → (differences acc a b ≡ 0) ↔ ((acc ≡ 0) × (a ≡ b))
unfolding differences
differences_iff acc [] [] h = (λ e. (e, refl), λ e. e.0)
differences_iff acc [] (y ∷ b) h = absurd (omega (arith, h))
differences_iff acc (x ∷ a) [] h = absurd (omega (arith, h))
differences_iff acc (x ∷ a) (y ∷ b) h =
    let (to, from) = differences_iff (bit_or acc (bit_xor x y)) a b (omega (arith, h)) in
    let both = bit_or-eq-zero_iff acc (bit_xor x y) in
    let same = bit_xor-eq-zero_iff x y in
    (
      λ e.
          let (low, tails) = to e in
          let (none_before, none_here) = both.0 low in
          (none_before, ap₂ (λ c s. c ∷ s) (same.0 none_here) tails),
      λ (z, e). from (both.1 (z, same.1 (ground arith)), ground arith),
    )

-- The comparison that looks at every byte decides equality.
pub constant_time_eq_iff : (a b : Bytes) → (constant_time_eq a b ≡ true) ↔ (a ≡ b)
unfolding constant_time_eq
constant_time_eq_iff a b = elim (Bool-cases (length a == length b)) [
  | inl e ↦ rw e (
      let (to, from) = differences_iff 0 a b (ground arith) in
      (λ h. (to (ground arith)).1, λ h. ground (arith, from (refl, h))))
  | inr e ↦ rw e (λ h. absurd (ground arith), λ h. absurd (ground arith))
]
