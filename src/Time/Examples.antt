-- ===== src/Time/Examples.antt =====
-- A concrete reading of the `jiff` operations, for tests and witnesses.
use you_spin_me.Prelude.{
  suc, ◌/◌, ◌≡◌, refl, arith, some, Bytes, decimal, codes, ℤ, pos, negsuc, ◌+ℤ◌, ◌-ℤ◌,
}
use you_spin_me.Time.{Jiff, IsJiff, second, in_nanos}

-- Towards zero.
abbrev whole_seconds : ℤ → ℤ
whole_seconds (pos n) = pos (n / second)
whole_seconds (negsuc n) = pos 0 -ℤ pos (suc n / second)

abbrev show : ℤ → Bytes
show (pos n) = decimal n
show (negsuc n) = codes "-"

abbrev pub plain : Jiff
plain = record {
  from_secs = in_nanos;
  as_secs = whole_seconds;
  as_second = whole_seconds;
  checked_add = λ t d. some (t +ℤ d);
  duration_since = λ t u. t -ℤ u;
  display = show;
  fmt_date = λ t. show (whole_seconds t);
  fmt_datetime = show;
}

whole-in_nanos : (n : ℤ) → whole_seconds (in_nanos n) ≡ n
unfolding ◌-ℤ◌
whole-in_nanos (pos n) = ground arith
whole-in_nanos (negsuc n) = ground arith

pub plain-IsJiff : IsJiff plain
plain-IsJiff = record {
  from_secs_lem = λ n. refl;
  as_secs-from_secs = whole-in_nanos;
  checked_add_lem = λ t d u h. ground arith;
  duration_since_lem = λ t u. refl;
}
