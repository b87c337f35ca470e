-- ===== src/KubeRepository/Examples.antt =====
-- An update that meets two conflicts, and the condition of a valid key.
use you_spin_me.Prelude.{
  ℕ, zero, suc, ◌≡◌, ◌↔◌, refl, true, false, none, some, [], ◌∷◌, Result, ok, err, codes, bytes_eq,
  pos,
}
use you_spin_me.Crd.{empty_status, ApiKey, ApiKeyStatus, Condition, condition, find_condition}
use you_spin_me.Glob.{allow_all}
use you_spin_me.Validation.Examples.{validation, plain_crates, two_targets}
use you_spin_me.Validation.Rules.{IsValid}
use you_spin_me.Repo.{conflict}
use you_spin_me.KubeRepository.{
  ApiServer, KubeError, attempts, update_status, with_status, desired_valid_condition,
  valid_condition, condition_of, verdict,
}
use you_spin_me.KubeRepository.Updates.{Runs, update_status-Runs}
use you_spin_me.KubeRepository.Atomic.{Atomic, update_status-IsAtomic}
use you_spin_me.KubeRepository.Rival.{Held, rivalled, rivalled_view, rivalled-IsOptimistic}
use you_spin_me.KubeRepository.Settled.{with_condition, desired_valid_condition-settles}

abbrev key : ApiKey
key = record {
  metadata = record {
    name = some (codes "bot");
    namespace = none;
    generation = some (pos 1);
    resource_version = none;
  };
  spec = two_targets;
  status = none;
}

abbrev refusal : KubeError
refusal = record { is_not_found = false; is_conflict = true; shown = codes "conflict" }

abbrev replace : ℕ × ApiKey → ApiKey → (ℕ × ApiKey) × Result KubeError ApiKey
replace (zero, old) obj = ((0, obj), ok obj)
replace (suc n, old) obj = ((n, old), err refusal)

-- A server of one key, with so many conflicts to come.
abbrev server : ApiServer (ℕ × ApiKey)
server = record {
  get_status = λ s name. (s, ok s.1);
  replace_status = λ s name obj. replace s obj;
  patch_status = λ s name conditions generation. (s, ok s.1);
  publish = λ s k event. (s, ok tt);
  cached = λ s. s.1 ∷ [];
  lookup = λ s name. some s.1;
  synced = λ s. true;
}

abbrev stamp : ApiKeyStatus → ApiKeyStatus
stamp s = record s { observed_generation = some (pos 1) }

-- Two conflicts are survived, three are not.
update_status_tests :
    ((update_status server (2, key) (codes "bot") stamp).1 ≡ ok (with_status stamp key))
    × ((update_status server (3, key) (codes "bot") stamp).1 ≡ err conflict)
unfolding update_status attempts
update_status_tests = (refl, refl)

update_status-Runs_example :
    Runs server (codes "bot") stamp 3 (2, key) (update_status server (2, key) (codes "bot") stamp)
update_status-Runs_example = update_status-Runs server (codes "bot") stamp (2, key)

-- The rival writes twice between the reads and the replacements.
abbrev crowded : Held
crowded = record { pending = 2; version = 1; status = none }

rival_test : (update_status rivalled crowded (codes "bot") stamp).0 ≡ record {
  pending = 0;
  version = 4;
  status = some (record empty_status { observed_generation = some (pos 1) });
}
unfolding update_status attempts bytes_eq
rival_test = refl

update_status-IsAtomic_example :
    Atomic rivalled_view rivalled-IsOptimistic
      (codes "bot")
      stamp
      crowded
      (update_status rivalled crowded (codes "bot") stamp)
update_status-IsAtomic_example =
    update_status-IsAtomic rivalled_view rivalled-IsOptimistic (codes "bot") stamp crowded

abbrev told : Condition
told = condition_of (verdict []) key (pos 7)

is_told : desired_valid_condition plain_crates key allow_all (pos 7) ≡ some told
unfolding desired_valid_condition validation condition find_condition
is_told = refl

desired_valid_condition-settles_example :
    ((told.status ≡ codes "True") ↔ IsValid plain_crates key.spec allow_all)
    × (condition (with_condition key told) valid_condition ≡ some told)
    × (desired_valid_condition plain_crates (with_condition key told) allow_all (pos 9) ≡ none)
desired_valid_condition-settles_example =
    desired_valid_condition-settles plain_crates allow_all key (pos 7) (pos 9) told is_told
