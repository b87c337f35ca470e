-- ===== src/Duration/RoundTrip.antt =====
-- What `humanize` prints, read back by `parse`.
use you_spin_me.Prelude.{
  ℕ, ◌+◌, ◌*◌, ◌/◌, ◌≤◌, ◌<◌, ◌≡◌, refl, subst, [], ◌∷◌, ◌++◌, arith, ok, trim, trim_between,
  decimal, decimal-Spells, IsDigit, All, pos, inl, inr, Bool-cases, leb,
}
use you_spin_me.Time.{SignedDuration, Jiff}
use you_spin_me.Duration.{parse, humanize, abs, largest_unit, i64_max}
use you_spin_me.Duration.Grammar.{IsDuration, UnitOf, parse_of_IsDuration}

-- The number of seconds rounded down to a whole number of the unit that `humanize` chooses.
abbrev rounded : ℕ → ℕ
rounded n = n / (largest_unit n).0 * (largest_unit n).0

largest_unit-UnitOf : (n : ℕ) → UnitOf (largest_unit n).1 (largest_unit n).0
largest_unit-UnitOf n = ground arith

rounded-le : (n : ℕ) → rounded n ≤ n
rounded-le n = ground arith

lt-rounded : (n : ℕ) → n < rounded n + (largest_unit n).0
lt-rounded n = ground arith

trim-decimal : (n : ℕ) (u : ℕ) → 97 ≤ u → u ≤ 122 → trim (decimal n ++ u ∷ []) ≡ decimal n ++ u ∷ []
trim-decimal n u h k =
    let d = decimal-Spells n in
    let digital : All IsDigit (d.first ∷ d.later) = subst (All IsDigit) d.shape d.digital in
    rw d.shape (trim_between d.first d.later u (omega arith) (omega arith))

printed-IsDuration :
    (n : ℕ)
    → n ≤ i64_max
    → IsDuration (trim (decimal (n / (largest_unit n).0) ++ (largest_unit n).1 ∷ [])) (rounded n)
printed-IsDuration n h = record {
  number = decimal (n / (largest_unit n).0);
  unit = (largest_unit n).1;
  count = n / (largest_unit n).0;
  per = (largest_unit n).0;
  shape = trim-decimal _ _ (ground arith) (ground arith);
  spells = decimal-Spells _;
  unit_of = largest_unit-UnitOf n;
  worth = refl;
  fits = omega (arith, rounded-le n);
}

-- The largest of days, hours, minutes and seconds that is not longer than so many seconds, by its
-- length in seconds; seconds if none is.
pub data LargestUnit (n : ℕ) : ℕ → Type 0 where
  days : 24 * 60 * 60 ≤ n → LargestUnit n (24 * 60 * 60)
  hours : n < 24 * 60 * 60 → 60 * 60 ≤ n → LargestUnit n (60 * 60)
  minutes : n < 60 * 60 → 60 ≤ n → LargestUnit n 60
  seconds : n < 60 → LargestUnit n 1

largest_unit-LargestUnit : (n : ℕ) → LargestUnit n (largest_unit n).0
largest_unit-LargestUnit n = elim (Bool-cases (leb 86_400 n)) [
  | inl d ↦ rw d (days (ground arith))
  | inr d ↦ elim (Bool-cases (leb 3600 n)) [
    | inl h ↦ rw (d, h) (hours (ground arith) (ground arith))
    | inr h ↦ elim (Bool-cases (leb 60 n)) [
      | inl m ↦ rw (d, h, m) (minutes (ground arith) (ground arith))
      | inr m ↦ rw (d, h, m) (seconds (ground arith))
    ]
  ]
]

-- `parse` reads what `humanize` prints, as the number of seconds without its sign, rounded down to a
-- whole number of days, or of hours below a day, minutes below an hour and seconds below a minute.
-- The magnitude must fit an `i64`.
pub parse-humanize :
    (jiff : Jiff) (d : SignedDuration)
    → abs (jiff.as_secs d) ≤ i64_max
    → (per : ℕ) × (count : ℕ) × LargestUnit (abs (jiff.as_secs d)) per
      × (parse jiff (humanize jiff d) ≡ ok (jiff.from_secs (pos (count * per))))
      × (count * per ≤ abs (jiff.as_secs d))
      × (abs (jiff.as_secs d) < count * per + per)
unfolding humanize
parse-humanize jiff d h =
    let n = abs (jiff.as_secs d) in
    (
      (largest_unit n).0,
      n / (largest_unit n).0,
      largest_unit-LargestUnit n,
      parse_of_IsDuration jiff _ (rounded n) (printed-IsDuration n h),
      rounded-le n,
      lt-rounded n,
    )
