-- ===== src/Metrics/Examples.antt =====
-- The gauges of two keys, one with two targets.
use you_spin_me.Prelude.{
  ◌≡◌, refl, none, some, [], ◌∷◌, map, length, Bytes, codes, pos, trim, split_last, value, ℤ,
}
use you_spin_me.Time.Examples.{plain}
use you_spin_me.Crd.{ApiKey, TargetStatus, TargetResult, succeeded, failed, empty_status}
use you_spin_me.Schedule
use you_spin_me.Duration
use you_spin_me.Schedule.{default_thresholds}
use you_spin_me.Validation.Examples.{two_targets}
use you_spin_me.Repo.Memory.{MemoryRepository, memory, list}
use you_spin_me.Metrics.Gauges.{Floats, samples_of, healthy_samples, collect}

abbrev entry : Bytes → TargetResult → TargetStatus
entry reference result = record {
  reference = reference;
  last_written = none;
  result = result;
  message = none;
}

abbrev key : Bytes → ApiKey
key name = record {
  metadata = record {
    name = some name;
    namespace = none;
    generation = none;
    resource_version = none;
  };
  spec = two_targets;
  status = some (record empty_status {
    last_rotated = some (pos 1000);
    targets = entry (codes "x") succeeded ∷ entry (codes "y") failed ∷ [];
  });
}

abbrev repo : MemoryRepository
repo = record {
  keys = (codes "a", key (codes "a")) ∷ (codes "b", key (codes "b")) ∷ [];
  events = [];
}

abbrev pub floats : Floats ℤ
floats = record { seconds = λ t. t; as_secs_f64 = λ d. d; one = pos 1; zero = pos 0 }

-- The families, as how many samples they have: both keys have a deadline, none has an expiry.
collect_test :
    map (λ f. length f.samples) (collect floats plain memory repo default_thresholds)
    ≡ 2 ∷ 0 ∷ 2 ∷ 2 ∷ 2 ∷ 2 ∷ 2 ∷ 2 ∷ 4 ∷ []
unfolding collect samples_of healthy_samples list Schedule.compute Duration.parse trim split_last
    value
collect_test = refl
