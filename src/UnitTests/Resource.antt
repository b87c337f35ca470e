-- ===== src/UnitTests/Resource.antt =====
-- A test of src/crd.rs: the methods on a key. The key is what its YAML reads as.
use you_spin_me.Prelude.{◌≡◌, refl, none, some, [], ◌∷◌, codes, trim_matches}
use you_spin_me.Crd.{ApiKey, OpenBaoTarget, github, display_name, key_name, reference, policy_path}
use you_spin_me.UnitTests.Fixtures.{default_spec}

abbrev target : OpenBaoTarget
target = record { mount = codes "secret"; path = codes "ci/renovate"; key = codes "token" }

abbrev example : ApiKey
example = record {
  metadata = record {
    name = some (codes "renovate-github");
    namespace = some (codes "you-spin-me");
    generation = none;
    resource_version = none;
  };
  spec = record default_spec {
    provider = github;
    renew_url = some (codes "https://github.com/settings/personal-access-tokens");
    setup = record { permissions = codes "contents: read" ∷ []; notes = none };
    rotation = record { max_age = some (codes "90d"); warn_before = none; critical_before = none };
    targets = record { openbao = some target } ∷ [];
  };
  status = none;
}

abbrev DeserializesExample : Type 0
DeserializesExample =
    (example.spec.provider ≡ github)
    × (display_name example ≡ codes "renovate-github")
    × (reference target ≡ codes "openbao/secret/ci/renovate#token")
    × (policy_path target ≡ codes "secret/data/ci/renovate")

deserializes_example : DeserializesExample
unfolding display_name key_name reference policy_path trim_matches
deserializes_example = (refl, refl, refl, refl)
