-- ===== src/Demo/Examples.antt =====
-- The sample keys, as validation and the schedule see them.
use you_spin_me.Prelude.{◌*◌, ◌≡◌, refl, [], ◌∷◌, map, pos, ◌+ℤ◌, ◌-ℤ◌}
use you_spin_me.Time.{second}
use you_spin_me.Time.Examples.{plain}
use you_spin_me.Glob.{allow_all}
use you_spin_me.Validation.{validate}
use you_spin_me.Validation.Examples.{validation, plain_crates}
use you_spin_me.Schedule
use you_spin_me.Schedule.{critical, warning, fine, expired, unknown, default_thresholds}
use you_spin_me.Demo.{sample_keys, key_of, status_of}

-- The specs are valid, and the demo shows every state.
sample_tests :
    (map (λ k. validate plain_crates k.spec allow_all) (sample_keys plain (pos (100 * second)))
      ≡ [] ∷ [] ∷ [] ∷ [] ∷ [] ∷ [])
    × (map
          (λ k.
            Schedule.state plain (Schedule.compute plain k default_thresholds) (pos (100 * second)))
          (sample_keys plain (pos (100 * second)))
        ≡ warning ∷ critical ∷ fine ∷ expired ∷ unknown ∷ [])
unfolding validation sample_keys key_of status_of Schedule.state Schedule.compute Schedule.remaining
    ◌+ℤ◌ ◌-ℤ◌
sample_tests = (refl, refl)
