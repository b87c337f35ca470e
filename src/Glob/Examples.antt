-- ===== src/Glob/Examples.antt =====
-- Globs on target paths.
use you_spin_me.Prelude.{◌≡◌, ◌↔◌, refl, true, false, codes}
use you_spin_me.Glob.{glob_match}
use you_spin_me.Glob.Semantics.{GlobMatches, glob_match_iff}

glob_match_tests :
    (glob_match (codes "secret/data/ci/*") (codes "secret/data/ci/renovate") ≡ true)
    × (glob_match (codes "secret/data/+/token") (codes "secret/data/home/token") ≡ true)
    × (glob_match (codes "secret/data/+/token") (codes "secret/data/token") ≡ false)
    × (glob_match (codes "secret/+") (codes "secret/") ≡ false)
    × (glob_match (codes "a/+*") (codes "a/b/c") ≡ true)
    × (glob_match (codes "secret/data/ci") (codes "secret/data/ci/x") ≡ false)
unfolding glob_match
glob_match_tests = (refl, refl, refl, refl, refl, refl)

glob_match_iff_example :
    (glob_match (codes "secret/data/ci/*") (codes "secret/data/ci/renovate") ≡ true)
    ↔ GlobMatches (codes "secret/data/ci/*") (codes "secret/data/ci/renovate")
glob_match_iff_example = glob_match_iff (codes "secret/data/ci/*") (codes "secret/data/ci/renovate")
