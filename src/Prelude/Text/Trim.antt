-- ===== src/Prelude/Text/Trim.antt =====
-- `str::trim`, which drops Unicode white space, and `str::trim_matches` for one ASCII character.
use Prim.Native.Nat.{ℕ, ◌≤◌, ◌<◌}
use mathlib.Core.Path.{◌≡◌, refl}
use mathlib.Core.Bool.{Bool, true, false, ◌&&◌, ◌||◌}
use mathlib.Core.List.{[], ◌∷◌, ◌++◌, reverse, reverse-append, reverse-reverse, reverse-cons}
use native.Mathlib.Omega.{arith}
use you_spin_me.Prelude.Tests.{leb, ◌==◌}
use you_spin_me.Prelude.Text.Core.{Bytes}

-- The white space characters that take one, two and three bytes.
space_1 : ℕ → Bool
space_1 a = (leb 9 a && leb a 13) || a == 32

space_2 : ℕ → ℕ → Bool
space_2 a b = a == 0xc2 && (b == 0x85 || b == 0xa0)

space_3 : ℕ → ℕ → ℕ → Bool
space_3 a b c =
    (a == 0xe1 && b == 0x9a && c == 0x80)
    || (a == 0xe2
        && b == 0x80
        && ((leb 0x80 c && leb c 0x8a) || c == 0xa8 || c == 0xa9 || c == 0xaf))
    || (a == 0xe2 && b == 0x81 && c == 0x9f)
    || (a == 0xe3 && b == 0x80 && c == 0x80)

module _ (two : ℕ → ℕ → Bool) (three : ℕ → ℕ → ℕ → Bool) where
  drop_space : Bytes → Bytes
  unfolding space_1
  drop_space [] = []
  drop_space (a ∷ []) = elim (space_1 a) [ true ↦ [] | false ↦ a ∷ [] ]
  drop_space (a ∷ b ∷ []) = elim (space_1 a) [
    | true ↦ drop_space (b ∷ [])
    | false ↦ elim (two a b) [ true ↦ [] | false ↦ a ∷ b ∷ [] ]
  ]
  drop_space (a ∷ b ∷ c ∷ s) = elim (space_1 a) [
    | true ↦ drop_space (b ∷ c ∷ s)
    | false ↦ elim (two a b) [
      | true ↦ drop_space (c ∷ s)
      | false ↦ elim (three a b c) [ true ↦ drop_space s | false ↦ a ∷ b ∷ c ∷ s ]
    ]
  ]

unfoldable pub trim : Bytes → Bytes
unfolding drop_space space_2 space_3
trim s = reverse (
    drop_space (λ a b. space_2 b a) (λ a b c. space_3 c b a)
      (reverse (drop_space space_2 space_3 s)))

-- A printable ASCII character.
abbrev pub IsDark : ℕ → Type 0
IsDark c = (33 ≤ c) × (c < 127)

drop_space_dark :
    (two : ℕ → ℕ → Bool) (three : ℕ → ℕ → ℕ → Bool) (a : ℕ) (s : Bytes)
    → IsDark a
    → ((b : ℕ) → two a b ≡ false)
    → ((b c : ℕ) → three a b c ≡ false)
    → drop_space two three (a ∷ s) ≡ a ∷ s
unfolding drop_space
drop_space_dark two three a [] h p q = ground arith
drop_space_dark two three a (b ∷ []) h p q = ground (arith, p b)
drop_space_dark two three a (b ∷ c ∷ s) h p q = ground (arith, p b, q b c)

trim_front_dark : (a : ℕ) (s : Bytes) → IsDark a → drop_space space_2 space_3 (a ∷ s) ≡ a ∷ s
unfolding space_2 space_3
trim_front_dark a s h =
    drop_space_dark space_2 space_3 a s h (λ b. ground arith) (λ b c. ground arith)

trim_back_dark :
    (a : ℕ) (s : Bytes)
    → IsDark a
    → drop_space (λ a b. space_2 b a) (λ a b c. space_3 c b a) (a ∷ s) ≡ a ∷ s
unfolding space_2 space_3
trim_back_dark a s h = drop_space_dark _ _ a s h (λ b. ground arith) (λ b c. ground arith)

-- A text between two printable ASCII characters is not trimmed.
pub trim_between :
    (a : ℕ) (s : Bytes) (c : ℕ) → IsDark a → IsDark c → trim (a ∷ s ++ c ∷ []) ≡ a ∷ s ++ c ∷ []
unfolding trim
trim_between a s c h k = rw (
  trim_front_dark a (s ++ c ∷ []) h,
  reverse-append (a ∷ s) (c ∷ []),
  trim_back_dark c (reverse (a ∷ s)) k,
  reverse-cons c (reverse (a ∷ s)),
  reverse-reverse,
)

unfoldable pub drop_char : ℕ → Bytes → Bytes
drop_char m [] = []
drop_char m (c ∷ s) = elim (c == m) [ true ↦ drop_char m s | false ↦ c ∷ s ]

unfoldable pub trim_matches : ℕ → Bytes → Bytes
unfolding drop_char
trim_matches m s = reverse (drop_char m (reverse (drop_char m s)))

abbrev nbsp_padded : Bytes
nbsp_padded = 0xc2 ∷ 0xa0 ∷ b'x' ∷ 32 ∷ 0xe2 ∷ 0x80 ∷ 0x83 ∷ []

trim_test : trim nbsp_padded ≡ b'x' ∷ []
unfolding trim
trim_test = refl
