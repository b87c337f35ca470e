-- ===== src/Crd/Reference.antt =====
-- Target references: when two targets share one.
use you_spin_me.Prelude.{◌≡◌, arith, trim_matches, Lacks, first_cut, last_cut}
use you_spin_me.Crd.{OpenBaoTarget, reference}

-- Two targets whose mounts hold no '/' and whose keys hold no '#' share a reference only if they name
-- the same mount, the same path up to slashes at its ends, and the same key.
pub reference_injective :
    (t u : OpenBaoTarget)
    → Lacks b'/' t.mount
    → Lacks b'/' u.mount
    → Lacks b'#' t.key
    → Lacks b'#' u.key
    → reference t ≡ reference u
    → (t.mount ≡ u.mount) × (trim_matches b'/' t.path ≡ trim_matches b'/' u.path) × (t.key ≡ u.key)
unfolding reference
reference_injective t u mt mu kt ku e =
    let (mounts, rests) = first_cut b'/' t.mount u.mount _ _ mt mu (ground arith) in
    let (paths, keys) =
      last_cut b'#' (trim_matches b'/' t.path) (trim_matches b'/' u.path) t.key u.key kt ku rests in
    (mounts, paths, keys)
