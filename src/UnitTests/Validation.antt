-- ===== src/UnitTests/Validation.antt =====
-- The tests of src/validation.rs.
use you_spin_me.Prelude.{◌≡◌, refl, true, false, none, some, [], ◌∷◌, Bytes, codes, join}
use you_spin_me.Crd.{ApiKeySpec}
use you_spin_me.Glob
use you_spin_me.Glob.{allow_all, glob_match}
use you_spin_me.Validation.{validate}
use you_spin_me.Validation.Examples.{validation, plain_crates}
use you_spin_me.Views.{contains_text}
use you_spin_me.UnitTests.Fixtures.{default_spec, target_at}

abbrev GlobsFollowOpenbaoSemantics : Type 0
GlobsFollowOpenbaoSemantics =
    (glob_match (codes "*") (codes "secret/data/anything") ≡ true)
    × (glob_match (codes "secret/data/ci/*") (codes "secret/data/ci/renovate") ≡ true)
    × (glob_match (codes "secret/data/ci/*") (codes "secret/data/cid") ≡ false)
    × (glob_match (codes "secret/data/ci*") (codes "secret/data/cid") ≡ true)
    × (glob_match (codes "secret/data/ci/renovate") (codes "secret/data/ci/renovate") ≡ true)
    × (glob_match (codes "secret/data/ci/renovate") (codes "secret/data/ci/renovate/x") ≡ false)
    × (glob_match (codes "secret/data/+/api-keys/*") (codes "secret/data/home/api-keys/openai")
        ≡ true)
    × (glob_match (codes "secret/data/+/api-keys/*") (codes "secret/data/home/other/openai")
        ≡ false)
    × (glob_match (codes "secret/data/+") (codes "secret/data/home") ≡ true)
    × (glob_match (codes "secret/data/+") (codes "secret/data/home/x") ≡ false)
    × (glob_match (codes "kv/*") (codes "secret/data/x") ≡ false)

globs_follow_openbao_semantics : GlobsFollowOpenbaoSemantics
unfolding validation
globs_follow_openbao_semantics = (refl, refl, refl, refl, refl, refl, refl, refl, refl, refl, refl)

abbrev valid_spec : ApiKeySpec
valid_spec = record default_spec {
  renew_url = some (codes "https://example.com/keys");
  targets = target_at (codes "secret") (codes "ci/renovate") (codes "token") ∷ [];
}

abbrev ValidSpecHasNoProblems : Type 0
ValidSpecHasNoProblems = validate plain_crates valid_spec allow_all ≡ []

valid_spec_has_no_problems : ValidSpecHasNoProblems
unfolding validation
valid_spec_has_no_problems = refl

abbrev problematic : ApiKeySpec
problematic = record default_spec {
  renew_url = some (codes "javascript:alert(1)");
  targets =
      target_at (codes "secret") (codes "ci/renovate") (codes "token")
      ∷ target_at (codes "secret") (codes "ci/renovate") (codes "token")
      ∷ target_at (codes "secret") (codes "home/x") (codes "token")
      ∷ record { openbao = none }
      ∷ [];
  rotation = record {
    max_age = some (codes "forever");
    warn_before = some (codes "1d");
    critical_before = some (codes "2d");
  };
}

abbrev problems : Bytes
problems =
    join (codes "\n") (validate plain_crates problematic (Glob.new (codes "secret/data/ci/*" ∷ [])))

abbrev ReportsProblems : Type 0
ReportsProblems =
    (contains_text problems (codes "rotation.maxAge") ≡ true)
    × (contains_text problems (codes "criticalBefore is longer") ≡ true)
    × (contains_text problems (codes "renewUrl") ≡ true)
    × (contains_text problems (codes "duplicate target") ≡ true)
    × (contains_text problems (codes "secret/data/home/x is not in allowedPaths") ≡ true)
    × (contains_text problems (codes "no target type set") ≡ true)

reports_problems : ReportsProblems
unfolding validation contains_text
reports_problems = (refl, refl, refl, refl, refl, refl)
