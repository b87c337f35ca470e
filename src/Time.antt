-- ===== src/Time.antt =====
-- The instants and durations of the `jiff` crate, which every other component uses. A `Timestamp` is
-- taken as the instant that it denotes, in nanoseconds since the Unix epoch, and a `SignedDuration`
-- as its length in nanoseconds; both compare as numbers. The crate's operations are a parameter.
pub mod Examples
use you_spin_me.Prelude.{
  ℕ, ◌+◌, ◌-◌, ◌*◌, ◌≡◌, Bool, Option, some, Bytes, ℤ, pos, negsuc, ◌+ℤ◌, ◌-ℤ◌,
}

abbrev pub Timestamp : Type 0
Timestamp = ℤ

abbrev pub SignedDuration : Type 0
SignedDuration = ℤ

pub record Jiff : Type 0 where
  pub from_secs : ℤ → SignedDuration
  pub as_secs : SignedDuration → ℤ
  pub as_second : Timestamp → ℤ
  pub checked_add : Timestamp → SignedDuration → Option Timestamp
  pub duration_since : Timestamp → Timestamp → SignedDuration
  -- `Display`, and `strftime` with "%Y-%m-%d" and with "%Y-%m-%d %H:%M UTC"
  pub display : Timestamp → Bytes
  pub fmt_date : Timestamp → Bytes
  pub fmt_datetime : Timestamp → Bytes

abbrev pub second : ℕ
second = 1_000_000_000

-- So many seconds, in nanoseconds.
abbrev pub in_nanos : ℤ → ℤ
in_nanos (pos n) = pos (n * second)
in_nanos (negsuc n) = negsuc (n * second + (second - 1))

-- What the crate documents of these operations.
pub record IsJiff (j : Jiff) : Type 0 where
  pub from_secs_lem : (n : ℤ) → j.from_secs n ≡ in_nanos n
  pub as_secs-from_secs : (n : ℤ) → j.as_secs (j.from_secs n) ≡ n
  pub checked_add_lem :
      (t : Timestamp) (d : SignedDuration) (u : Timestamp) → j.checked_add t d ≡ some u → u ≡ t +ℤ d
  pub duration_since_lem : (t u : Timestamp) → j.duration_since t u ≡ t -ℤ u
