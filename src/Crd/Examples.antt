-- ===== src/Crd/Examples.antt =====
-- References that differ, and two that do not.
use you_spin_me.Prelude.{◌≡◌, refl, arith, codes, Bytes, trim_matches}
use you_spin_me.Crd.{OpenBaoTarget, reference, policy_path}
use you_spin_me.Crd.Reference.{reference_injective}

abbrev target : Bytes → Bytes → OpenBaoTarget
target path key = record { mount = codes "secret"; path = path; key = key }

-- Slashes at the ends of a path do not count, and a '#' in a key can move.
reference_tests :
    (reference (target (codes "/ci/") (codes "k")) ≡ codes "openbao/secret/ci#k")
    × (policy_path (target (codes "ci/") (codes "k")) ≡ codes "secret/data/ci")
    × (reference (target (codes "a#b") (codes "c")) ≡ reference (target (codes "a") (codes "b#c")))
unfolding reference policy_path trim_matches
reference_tests = (refl, refl, refl)

same : reference (target (codes "ci/") (codes "k")) ≡ reference (target (codes "/ci") (codes "k"))
unfolding reference trim_matches
same = refl

reference_injective_example :
    (codes "secret" ≡ codes "secret")
    × (trim_matches b'/' (codes "ci/") ≡ trim_matches b'/' (codes "/ci"))
    × (codes "k" ≡ codes "k")
reference_injective_example =
    reference_injective (target (codes "ci/") (codes "k")) (target (codes "/ci") (codes "k"))
      (ground arith) (ground arith) (ground arith) (ground arith) same
