-- ===== src/Duration.antt =====
-- Durations as written in specs and flags (src/duration.rs): `parse` and `humanize`.
pub mod Grammar
pub mod RoundTrip
mod Examples
use you_spin_me.Prelude.{
  ℕ, ◌+◌, ◌*◌, ◌/◌, ◌≡◌, refl, Bool, not, ◌||◌, Option, none, some, List, [], ◌∷◌, ◌++◌, ltb, leb,
  ◌==◌, if◌then◌else◌, Result, ok, err, is_nil, all, Bytes, codes, trim, split_last, decimal, value,
  is_digit, ℤ, pos, negsuc, suc, ◌^◌, ◌-◌,
}
use you_spin_me.Time.{SignedDuration, Jiff}

pub data ParseDurationError : Type 0 where
  invalid : Bytes → ParseDurationError

abbrev pub i64_max : ℕ
i64_max = 2 ^ 63 - 1

-- Of a byte of valid UTF-8: a character starts here.
abbrev is_char_boundary : ℕ → Bool
is_char_boundary b = ltb b 128 || leb 192 b

-- `parse::<i64>` of a row of digits, and `checked_mul` of numbers that are not negative.
abbrev parse_i64 : Bytes → Option ℕ
parse_i64 s = if leb (value 0 s) i64_max then some (value 0 s) else none

abbrev checked_mul : ℕ → ℕ → Option ℕ
checked_mul n m = if leb (n * m) i64_max then some (n * m) else none

abbrev seconds_per_unit : ℕ → Option ℕ
seconds_per_unit c =
    if c == b's'
    then some 1
    else if c == b'm'
    then some 60
    else if c == b'h'
    then some 3600
    else if c == b'd'
    then some 86_400
    else if c == b'w'
    then some (7 * 86_400)
    else none

-- The number of seconds that a trimmed text stands for.
pub seconds_of : Bytes → Option ℕ
seconds_of text = elim (split_last text) [
  | none ↦ none
  | some (number, unit) ↦
      if not (is_char_boundary unit)
      then none
      else if is_nil number || not (all is_digit number)
      then none
      else elim (parse_i64 number) [
        | none ↦ none
        | some n ↦ elim (seconds_per_unit unit) [ none ↦ none | some m ↦ checked_mul n m ]
      ]
]

unfoldable pub parse : Jiff → Bytes → Result ParseDurationError SignedDuration
unfolding seconds_of
parse jiff input = elim (seconds_of (trim input)) [
  | none ↦ err (invalid input)
  | some secs ↦ ok (jiff.from_secs (pos secs))
]

abbrev pub abs : ℤ → ℕ
abs (pos n) = n
abs (negsuc n) = suc n

-- The largest unit that fits, with its length in seconds.
abbrev pub largest_unit : ℕ → ℕ × ℕ
largest_unit secs =
    if leb 86_400 secs
    then (86_400, b'd')
    else if leb 3600 secs
    then (3600, b'h')
    else if leb 60 secs
    then (60, b'm')
    else (1, b's')

unfoldable pub humanize : Jiff → SignedDuration → Bytes
humanize jiff d =
    let secs = abs (jiff.as_secs d) in
    let (length, unit) = largest_unit secs in decimal (secs / length) ++ unit ∷ []
