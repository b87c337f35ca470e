-- ===== src/Schedule/Examples.antt =====
-- The schedule of a key that was rotated a day after the epoch and expires on the hundredth day.
use you_spin_me.Prelude.{
  ◌≡◌, ◌↔◌, ◌≤◌, ◌*◌, refl, arith, ℕ, none, some, Bytes, codes, trim, split_last, value, ℤ, pos,
  ◌+ℤ◌, ◌-ℤ◌,
}
use you_spin_me.Time.{second}
use you_spin_me.Time.Examples.{plain, plain-IsJiff}
use you_spin_me.Duration
use you_spin_me.Duration.Grammar.{IsDuration}
use you_spin_me.Crd.{ApiKey, empty_status}
use you_spin_me.Validation.Examples.{two_targets}
use you_spin_me.Schedule.{
  default_thresholds, Schedule, expired, warning, unknown, max_age, compute, remaining, state,
}
use you_spin_me.Schedule.Deadline.{HasDeadline, compute-deadline, compute-rotate_by}
use you_spin_me.Schedule.Urgency.{InState, rank, state-InState, state_mono}

abbrev day : ℕ
day = 86_400 * second

abbrev key : ApiKey
key = record {
  metadata = record {
    name = some (codes "bot");
    namespace = none;
    generation = none;
    resource_version = none;
  };
  spec = two_targets;
  status =
      some (record empty_status {
        last_rotated = some (pos day);
        expires_at = some (pos (100 * day));
      });
}

abbrev schedule : Schedule
schedule = compute plain key default_thresholds

due : schedule.rotate_by ≡ some (pos (91 * day))
unfolding compute Duration.parse trim split_last value ◌+ℤ◌
due = refl

state_tests :
    (schedule.deadline ≡ some (pos (91 * day), max_age))
    × (state plain schedule (pos (80 * day)) ≡ warning)
    × (state plain schedule (pos (91 * day)) ≡ expired)
    × (state plain (compute plain (record key { status = none }) default_thresholds) (pos 0)
        ≡ unknown)
unfolding compute Duration.parse trim split_last value state remaining ◌+ℤ◌ ◌-ℤ◌
state_tests = (refl, refl, refl, refl)

compute-deadline_example : HasDeadline (compute plain key default_thresholds)
compute-deadline_example = compute-deadline plain key default_thresholds

compute-rotate_by_example :
    (at : ℤ) × (text : Bytes) × (secs : ℕ) × ((compute plain key default_thresholds).last_rotated
      ≡ some at)
    × (key.spec.rotation.max_age ≡ some text)
    × IsDuration (trim text) secs
    × (pos (91 * day) ≡ at +ℤ pos (secs * second))
compute-rotate_by_example =
    compute-rotate_by plain plain-IsJiff key default_thresholds (pos (91 * day)) due

state-InState_example : InState schedule (pos (80 * day)) (state plain schedule (pos (80 * day)))
state-InState_example = state-InState plain plain-IsJiff schedule (pos (80 * day))

state_mono_example :
    (rank (state plain schedule (pos (91 * day))) ≤ rank (state plain schedule (pos (80 * day))))
    × ((state plain schedule (pos (80 * day)) ≡ unknown)
        ↔ (state plain schedule (pos (91 * day)) ≡ unknown))
state_mono_example =
    state_mono plain plain-IsJiff schedule (pos (80 * day)) (pos (91 * day)) (omega arith)
