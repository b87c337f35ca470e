-- ===== src/Duration/Grammar.antt =====
-- Which texts are durations, and how long they are.
use you_spin_me.Prelude.{
  ℕ, ◌*◌, ◌≤◌, ◌≡◌, ◌↔◌, ◌⊎◌, refl, inl, inr, true, false, some, [], ◌∷◌, ◌++◌, arith, ok, err,
  Option-cases, is_nil, all, All, Bytes, trim, split_last, split_last-append, split_last-eq-some,
  value, is_digit, IsDigit, Spells, pos,
}
use you_spin_me.Time.{Jiff}
use you_spin_me.Duration.{invalid, i64_max, seconds_of, parse, seconds_per_unit, is_char_boundary}

-- A unit's letter with its length in seconds.
abbrev pub UnitOf : ℕ → ℕ → Type 0
UnitOf c m =
    ((c ≡ b's') × (m ≡ 1))
    ⊎ ((c ≡ b'm') × (m ≡ 60))
    ⊎ ((c ≡ b'h') × (m ≡ 3600))
    ⊎ ((c ≡ b'd') × (m ≡ 86_400))
    ⊎ ((c ≡ b'w') × (m ≡ 604_800))

-- `s` is a number and a unit, and stands for `secs` seconds.
pub record IsDuration (s : Bytes) (secs : ℕ) : Type 0 where
  pub number : Bytes
  pub unit : ℕ
  pub count : ℕ
  pub per : ℕ
  pub shape : s ≡ number ++ unit ∷ []
  pub spells : Spells count number
  pub unit_of : UnitOf unit per
  pub worth : secs ≡ count * per
  pub fits : secs ≤ i64_max

all_digits : (s : Bytes) → (all is_digit s ≡ true) ↔ All IsDigit s
all_digits [] = ground arith
all_digits (c ∷ s) = ground (arith, all_digits s)

seconds_per_unit_iff : (c m : ℕ) → (seconds_per_unit c ≡ some m) ↔ UnitOf c m
seconds_per_unit_iff c m = ground arith

Spells-digits : (s : Bytes) → is_nil s ≡ false → all is_digit s ≡ true → Spells (value 0 s) s
Spells-digits [] h k = cc
Spells-digits (c ∷ s) h k = record {
  first = c;
  later = s;
  shape = refl;
  digital = (all_digits (c ∷ s)).0 k;
  worth = refl;
}

seconds_of_sound : (s : Bytes) (secs : ℕ) → seconds_of s ≡ some secs → IsDuration s secs
unfolding seconds_of
seconds_of_sound s secs h = elim (Option-cases (split_last s)) [
  | inl e ↦ absurd (ground arith)
  | inr ((number, unit), e) ↦ elim (Option-cases (seconds_per_unit unit)) [
    | inl e' ↦ absurd (ground arith)
    | inr (per, e') ↦ record {
      number = number;
      unit = unit;
      count = value 0 number;
      per = per;
      shape = split_last-eq-some s number unit e;
      spells = Spells-digits number (ground arith) (ground arith);
      unit_of = (seconds_per_unit_iff unit per).0 e';
      worth = ground arith;
      fits = ground arith;
    }
  ]
]

fits_without_unit : (c m n : ℕ) → UnitOf c m → n * m ≤ i64_max → n ≤ i64_max
fits_without_unit c m n h k = ground arith

at_boundary : (c m : ℕ) → UnitOf c m → is_char_boundary c ≡ true
at_boundary c m h = ground arith

-- What the tests see of a text that is a duration.
seconds_of_shape :
    (number : Bytes) (unit n m : ℕ)
    → is_nil number ≡ false
    → all is_digit number ≡ true
    → value 0 number ≡ n
    → UnitOf unit m
    → n * m ≤ i64_max
    → seconds_of (number ++ unit ∷ []) ≡ some (n * m)
unfolding seconds_of
seconds_of_shape number unit n m full digital worth u fits = ground (
  arith,
  split_last-append number unit,
  at_boundary unit m u,
  fits_without_unit unit m n u fits,
  (seconds_per_unit_iff unit m).1 u,
)

seconds_of_complete : (s : Bytes) (secs : ℕ) → IsDuration s secs → seconds_of s ≡ some secs
seconds_of_complete s secs d =
    let k = d.spells in
    rw (d.shape, d.worth)
      (seconds_of_shape d.number d.unit d.count d.per (rw k.shape refl)
        ((all_digits d.number).1 k.digital) k.worth d.unit_of (ground arith))

pub seconds_of_iff : (s : Bytes) (secs : ℕ) → (seconds_of s ≡ some secs) ↔ IsDuration s secs
seconds_of_iff s secs = (seconds_of_sound s secs, seconds_of_complete s secs)

-- `parse` succeeds exactly on a number and a unit letter, with white space around them, that come to
-- at most `i64::MAX` seconds, and returns just that length; any other text is the error's payload.
pub parse_iff :
    (jiff : Jiff) (s : Bytes)
    → ((secs : ℕ) × IsDuration (trim s) secs × (parse jiff s ≡ ok (jiff.from_secs (pos secs))))
      ⊎ (((secs : ℕ) → ¬ IsDuration (trim s) secs) × (parse jiff s ≡ err (invalid s)))
unfolding parse
parse_iff jiff s = elim (Option-cases (seconds_of (trim s))) [
  | inl e ↦ inr (λ secs d. cc (e, seconds_of_complete (trim s) secs d), rw (e, parse))
  | inr (secs, e) ↦ inl (secs, seconds_of_sound (trim s) secs e, rw (e, parse))
]

pub parse_of_IsDuration :
    (jiff : Jiff) (s : Bytes) (secs : ℕ)
    → IsDuration (trim s) secs
    → parse jiff s ≡ ok (jiff.from_secs (pos secs))
unfolding parse
parse_of_IsDuration jiff s secs d = rw (seconds_of_complete (trim s) secs d, parse)
