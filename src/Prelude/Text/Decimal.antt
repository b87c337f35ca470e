-- ===== src/Prelude/Text/Decimal.antt =====
-- Decimal numbers: `format!("{n}")` of a number that is not negative, and the digits that
-- `str::parse` reads.
use Prim.Native.Nat.{ℕ, zero, suc, ◌+◌, ◌-◌, ◌*◌, ◌/◌, ◌%◌, ◌≤◌, ◌<◌}
use mathlib.Core.Path.{◌≡◌, refl, subst}
use mathlib.Core.Logic.{inl, inr}
use mathlib.Core.Bool.{Bool, ◌&&◌}
use mathlib.Core.List.{[], ◌∷◌, ◌++◌}
use native.Mathlib.Omega.{arith}
use you_spin_me.Prelude.Tests.{leb, ltb, if◌then◌else◌, Bool-cases}
use you_spin_me.Prelude.Lists.{All, All-append}
use you_spin_me.Prelude.Text.Core.{Bytes, codes}

-- The fuel bounds the number of digits.
digits : ℕ → ℕ → Bytes
digits zero n = []
digits (suc f) n =
    let more = digits f (n / 10) in
    if ltb n 10 then (b'0' + n) ∷ [] else more ++ (b'0' + n % 10) ∷ []

unfoldable pub decimal : ℕ → Bytes
unfolding digits
decimal n = digits (suc n) n

-- `u8::is_ascii_digit`
abbrev pub is_digit : ℕ → Bool
is_digit c = leb b'0' c && leb c b'9'

-- The number that a row of digits spells behind `n`.
unfoldable pub value : ℕ → Bytes → ℕ
value n [] = n
value n (c ∷ s) = value (n * 10 + (c - b'0')) s

pub value-append : (n : ℕ) (s t : Bytes) → value n (s ++ t) ≡ value (value n s) t
unfolding value
value-append n [] t = refl
value-append n (c ∷ s) t = value-append (n * 10 + (c - b'0')) s t

abbrev pub IsDigit : ℕ → Type 0
IsDigit c = (b'0' ≤ c) × (c ≤ b'9')

-- A row of digits that is not empty and spells `n`.
pub record Spells (n : ℕ) (s : Bytes) : Type 0 where
  pub first : ℕ
  pub later : Bytes
  pub shape : s ≡ first ∷ later
  pub digital : All IsDigit s
  pub worth : value 0 s ≡ n

Spells-append :
    (n d : ℕ) (s : Bytes) → d < 10 → Spells n s → Spells (n * 10 + d) (s ++ (b'0' + d) ∷ [])
unfolding value
Spells-append n d s h k = record {
  first = k.first;
  later = k.later ++ (b'0' + d) ∷ [];
  shape = rw k.shape;
  digital = All-append IsDigit s _ k.digital (omega arith);
  worth = rw (value-append 0 s _, k.worth) (omega arith);
}

digits-Spells : (f n : ℕ) → n < f → Spells n (digits f n)
unfolding digits value
digits-Spells zero n h = elim h [ ]
digits-Spells (suc f) n h = elim (Bool-cases (ltb n 10)) [
  | inl small ↦ rw small (record {
    first = b'0' + n;
    later = [];
    shape = refl;
    digital = ground arith;
    worth = ground arith;
  })
  | inr big ↦ rw big (
      subst (λ m. Spells m (digits f (n / 10) ++ (b'0' + n % 10) ∷ [])) (omega arith)
        (Spells-append (n / 10) (n % 10) _ (omega arith) (digits-Spells f (n / 10) (ground arith))))
]

pub decimal-Spells : (n : ℕ) → Spells n (decimal n)
unfolding decimal
decimal-Spells n = digits-Spells (suc n) n (omega arith)

decimal_test : decimal 1209600 ≡ codes "1209600"
unfolding decimal
decimal_test = refl
