-- ===== src/Validation/Examples.antt =====
-- Specs that are valid and specs that are not.
use you_spin_me.Prelude.{
  ◌≡◌, ◌↔◌, refl, none, some, List, [], ◌∷◌, ◌++◌, if◌then◌else◌, length, Bytes, codes, starts_with,
  trim, split_last, value, bytes_eq, split, contains, trim_matches, decimal, join, find,
}
use you_spin_me.Time.Examples.{plain}
use you_spin_me.Duration
use you_spin_me.Crd.{reference, policy_path, ApiKeySpec, TargetSpec, github}
use you_spin_me.Glob.{new, allow_all, allows, glob_match}
use you_spin_me.Validation.{Crates, validate}
use you_spin_me.Validation.Rules.{IsValid, validate_iff}

-- To unfold it is to unfold all that validation runs.
unfoldable pub validation : Unit {0}
unfolding validate allow_all new Duration.parse trim split_last value starts_with bytes_eq split
    contains allows glob_match reference policy_path trim_matches decimal join find
validation = tt

abbrev pub plain_crates : Crates
plain_crates = record {
  jiff = plain;
  url_scheme = λ u. if starts_with u (codes "https:") then some (codes "https") else none;
  debug = λ s. codes "\"" ++ (s ++ codes "\"");
}

abbrev pub target : Bytes → TargetSpec
target path = record {
  openbao = some (record { mount = codes "secret"; path = path; key = codes "token" });
}

abbrev pub spec_with : List TargetSpec → ApiKeySpec
spec_with targets = record {
  display_name = none;
  provider = github;
  owner = none;
  renew_url = some (codes "https://example.com/keys");
  setup = record { permissions = []; notes = none };
  rotation = record { max_age = some (codes "90d"); warn_before = none; critical_before = none };
  targets = targets;
  consumers = [];
}

abbrev pub two_targets : ApiKeySpec
two_targets = spec_with (target (codes "a") ∷ target (codes "b") ∷ [])

abbrev broken : ApiKeySpec
broken =
    record (spec_with (
      target (codes "ci/renovate")
      ∷ target (codes "ci/renovate/")
      ∷ target (codes "home/../x")
      ∷ record { openbao = none }
      ∷ [])) {
        renew_url = some (codes "javascript:alert(1)");
        rotation = record {
          max_age = some (codes "forever");
          warn_before = some (codes "1d");
          critical_before = some (codes "2d");
        };
      }

validate_tests :
    (validate plain_crates two_targets allow_all ≡ [])
    × (length (validate plain_crates broken (new (codes " secret/data/ci/* " ∷ [] ∷ []))) ≡ 7)
unfolding validation
validate_tests = (refl, refl)

validate_iff_example :
    (validate plain_crates two_targets allow_all ≡ []) ↔ IsValid plain_crates two_targets allow_all
validate_iff_example = validate_iff plain_crates two_targets allow_all
