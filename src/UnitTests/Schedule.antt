-- ===== src/UnitTests/Schedule.antt =====
-- The tests of src/schedule.rs.
use you_spin_me.Prelude.{
  ◌≡◌, refl, Option, none, some, Bytes, codes, trim, split_last, value, ◌*◌, ◌+ℤ◌, ◌-ℤ◌,
}
use you_spin_me.Time.{Timestamp}
use you_spin_me.Time.Examples.{plain}
use you_spin_me.Duration
use you_spin_me.Crd.{ApiKey, empty_status}
use you_spin_me.Schedule.{
  default_thresholds, Schedule, expired, critical, warning, unknown, fine, expiry, max_age, compute,
  remaining, state,
}
use you_spin_me.UnitTests.Fixtures.{ts, from_hours, default_spec, new_key}

-- The fixture of the tests.
abbrev key : (expires rotated : Option Timestamp) → (max_age : Option Bytes) → ApiKey
key expires rotated age =
    record (new_key (codes "k") (record default_spec {
      rotation = record { max_age = age; warn_before = none; critical_before = none };
    })) { status = some (record empty_status { expires_at = expires; last_rotated = rotated }) }

abbrev schedule : ApiKey → Schedule
schedule k = compute plain k default_thresholds

abbrev DeadlineIsEarliestOfExpiryAndMaxAge : Type 0
DeadlineIsEarliestOfExpiryAndMaxAge =
    ((schedule (key (some (ts 12 31 0)) (some (ts 9 1 0)) (some (codes "30d")))).deadline
      ≡ some (ts 10 1 0, max_age))
    × ((schedule (key (some (ts 9 15 0)) (some (ts 9 1 0)) (some (codes "30d")))).deadline
        ≡ some (ts 9 15 0, expiry))

deadline_is_earliest_of_expiry_and_max_age : DeadlineIsEarliestOfExpiryAndMaxAge
unfolding compute Duration.parse trim split_last value ◌+ℤ◌
deadline_is_earliest_of_expiry_and_max_age = (refl, refl)

abbrev MaxAgeWithoutRotationIsUnknown : Type 0
MaxAgeWithoutRotationIsUnknown =
    ((schedule (key none none (some (codes "90d")))).deadline ≡ none)
    × (state plain (schedule (key none none (some (codes "90d")))) (ts 9 1 0) ≡ unknown)

max_age_without_rotation_is_unknown : MaxAgeWithoutRotationIsUnknown
unfolding compute Duration.parse trim split_last value state remaining
max_age_without_rotation_is_unknown = (refl, refl)

abbrev StatesFollowThresholds : Type 0
StatesFollowThresholds =
    (state plain (schedule (key (some (ts 10 1 0)) none none)) (ts 9 1 0) ≡ fine)
    × (state plain (schedule (key (some (ts 10 1 0)) none none)) (ts 9 20 0) ≡ warning)
    × (state plain (schedule (key (some (ts 10 1 0)) none none)) (ts 9 27 0) ≡ critical)
    × (state plain (schedule (key (some (ts 10 1 0)) none none)) (ts 10 1 0) ≡ expired)

states_follow_thresholds : StatesFollowThresholds
unfolding compute state remaining ◌-ℤ◌
states_follow_thresholds = (refl, refl, refl, refl)

abbrev own_thresholds : ApiKey
own_thresholds = record (key (some (ts 10 1 0)) none none) {
  spec = record default_spec {
    rotation = record {
      max_age = none;
      warn_before = some (codes "30d");
      critical_before = some (codes "bogus");
    };
  };
}

abbrev PerKeyThresholdsOverrideDefaults : Type 0
PerKeyThresholdsOverrideDefaults =
    ((schedule own_thresholds).thresholds.warn_before ≡ from_hours (30 * 24))
    × ((schedule own_thresholds).thresholds.critical_before ≡ default_thresholds.critical_before)
    × (state plain (schedule own_thresholds) (ts 9 5 0) ≡ warning)

per_key_thresholds_override_defaults : PerKeyThresholdsOverrideDefaults
unfolding compute Duration.parse trim split_last value state remaining ◌-ℤ◌
per_key_thresholds_override_defaults = (refl, refl, refl)
