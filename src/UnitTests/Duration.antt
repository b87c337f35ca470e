-- ===== src/UnitTests/Duration.antt =====
-- The tests of src/duration.rs.
use you_spin_me.Prelude.{
  ◌≡◌, refl, ok, err, [], ◌∷◌, codes, trim, split_last, value, decimal, negsuc, ◌*◌, ◌-◌, ◌-ℤ◌,
}
use you_spin_me.Time.{second}
use you_spin_me.Time.Examples.{plain}
use you_spin_me.Duration.{parse, humanize, invalid}
use you_spin_me.UnitTests.Fixtures.{from_secs, from_hours}

abbrev ParsesUnits : Type 0
ParsesUnits =
    (parse plain (codes "90d") ≡ ok (from_hours (90 * 24)))
    × (parse plain (codes "2w") ≡ ok (from_hours (14 * 24)))
    × (parse plain (codes "12h") ≡ ok (from_hours 12))
    × (parse plain (codes "5m") ≡ ok (from_secs (5 * 60)))
    × (parse plain (codes "30s") ≡ ok (from_secs 30))

parses_units : ParsesUnits
unfolding parse trim split_last value
parses_units = (refl, refl, refl, refl, refl)

-- The last text is "1é".
abbrev RejectsGarbage : Type 0
RejectsGarbage =
    (parse plain (codes "") ≡ err (invalid (codes "")))
    × (parse plain (codes "d") ≡ err (invalid (codes "d")))
    × (parse plain (codes "10") ≡ err (invalid (codes "10")))
    × (parse plain (codes "-1d") ≡ err (invalid (codes "-1d")))
    × (parse plain (codes "1.5d") ≡ err (invalid (codes "1.5d")))
    × (parse plain (codes "10y") ≡ err (invalid (codes "10y")))
    × (parse plain (codes "1dd") ≡ err (invalid (codes "1dd")))
    × (parse plain (codes "99999999999999999w") ≡ err (invalid (codes "99999999999999999w")))
    × (parse plain (b'1' ∷ 195 ∷ 169 ∷ []) ≡ err (invalid (b'1' ∷ 195 ∷ 169 ∷ [])))

rejects_garbage : RejectsGarbage
unfolding parse trim split_last value
rejects_garbage = (refl, refl, refl, refl, refl, refl, refl, refl, refl)

abbrev Humanizes : Type 0
Humanizes =
    (humanize plain (from_hours 49) ≡ codes "2d")
    × (humanize plain (negsuc (3 * 3600 * second - 1)) ≡ codes "3h")
    × (humanize plain (from_secs 59) ≡ codes "59s")

humanizes : Humanizes
unfolding humanize decimal ◌-ℤ◌
humanizes = (refl, refl, refl)
