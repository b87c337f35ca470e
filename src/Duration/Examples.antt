-- ===== src/Duration/Examples.antt =====
-- Durations read and printed.
use you_spin_me.Prelude.{
  ◌≡◌, ◌⊎◌, ◌≤◌, ◌<◌, ◌+◌, ◌*◌, ◌-ℤ◌, refl, arith, ℕ, ok, err, codes, trim, split_last, value,
  decimal, pos, negsuc,
}
use you_spin_me.Time.{second}
use you_spin_me.Time.Examples.{plain}
use you_spin_me.Duration.{invalid, parse, humanize, abs}
use you_spin_me.Duration.Grammar.{IsDuration, parse_iff}
use you_spin_me.Duration.RoundTrip.{LargestUnit, parse-humanize}

-- 90 days, and two days and a minute past.
parse_tests :
    (parse plain (codes "90d") ≡ ok (pos (7_776_000 * second)))
    × (parse plain (codes " 2w\n") ≡ ok (pos (1_209_600 * second)))
    × (parse plain (codes "d") ≡ err (invalid (codes "d")))
    × (parse plain (codes "-5d") ≡ err (invalid (codes "-5d")))
    × (parse plain (codes "9999999999999999999w") ≡ err (invalid (codes "9999999999999999999w")))
    × (humanize plain (negsuc (172_860 * second)) ≡ codes "2d")
unfolding parse humanize trim split_last value decimal ◌-ℤ◌
parse_tests = (refl, refl, refl, refl, refl, refl)

parse_iff_example :
    ((secs : ℕ) × IsDuration (trim (codes "90d")) secs
      × (parse plain (codes "90d") ≡ ok (plain.from_secs (pos secs))))
    ⊎ (((secs : ℕ) → ¬ IsDuration (trim (codes "90d")) secs)
        × (parse plain (codes "90d") ≡ err (invalid (codes "90d"))))
parse_iff_example = parse_iff plain (codes "90d")

two_days : plain.as_secs (pos (172_860 * second)) ≡ pos 172_860
two_days = refl

parse-humanize_example :
    (per : ℕ) × (count : ℕ) × LargestUnit (abs (plain.as_secs (pos (172_860 * second)))) per
    × (parse plain (humanize plain (pos (172_860 * second)))
        ≡ ok (plain.from_secs (pos (count * per))))
    × (count * per ≤ abs (plain.as_secs (pos (172_860 * second))))
    × (abs (plain.as_secs (pos (172_860 * second))) < count * per + per)
parse-humanize_example = parse-humanize plain (pos (172_860 * second)) (omega arith)
