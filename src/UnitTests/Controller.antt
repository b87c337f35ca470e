-- ===== src/UnitTests/Controller.antt =====
-- The tests of src/k8s.rs.
use you_spin_me.Prelude.{◌≡◌, refl, none, some, [], ◌∷◌, codes, pos, unwrap_or}
use you_spin_me.Crd.{ApiKey, Condition, empty_status, condition, find_condition}
use you_spin_me.Glob.{allow_all}
use you_spin_me.Validation.Examples.{validation, plain_crates}
use you_spin_me.KubeRepository.{desired_valid_condition, condition_of, verdict}
use you_spin_me.UnitTests.Fixtures.{ts, default_spec, new_key}

-- The key as it is at first, at generation 1.
abbrev created : ApiKey
created = record (new_key (codes "k") default_spec) {
  metadata = record {
    name = some (codes "k");
    namespace = none;
    generation = some (pos 1);
    resource_version = none;
  };
}

abbrev untold : Condition
untold = condition_of (verdict []) created (pos 0)

abbrev first : Condition
first = unwrap_or (desired_valid_condition plain_crates created allow_all (ts 9 1 0)) untold

-- With that condition; and with a spec that is not valid, at generation 2.
abbrev settled : ApiKey
settled = record created { status = some (record empty_status { conditions = first ∷ [] }) }

abbrev spoilt : ApiKey
spoilt = record settled {
  metadata = record {
    name = some (codes "k");
    namespace = none;
    generation = some (pos 2);
    resource_version = none;
  };
  spec = record default_spec {
    rotation = record { max_age = some (codes "nope"); warn_before = none; critical_before = none };
  };
}

abbrev ValidConditionIsOnlyRewrittenOnChange : Type 0
ValidConditionIsOnlyRewrittenOnChange =
    (first.status ≡ codes "True")
    × (desired_valid_condition plain_crates settled allow_all (ts 9 1 0) ≡ none)
    × ((second : Condition) × (desired_valid_condition plain_crates spoilt allow_all (ts 9 2 0)
          ≡ some second)
        × (second.status ≡ codes "False")
        × (second.reason ≡ codes "InvalidSpec")
        × (second.last_transition_time ≡ ts 9 2 0))

valid_condition_is_only_rewritten_on_change : ValidConditionIsOnlyRewrittenOnChange
unfolding validation desired_valid_condition condition find_condition
valid_condition_is_only_rewritten_on_change = (refl, refl, (_, refl, refl, refl, refl))
