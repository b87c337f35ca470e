-- ===== src/Validation.antt =====
-- Checks for an `ApiKey` spec (src/validation.rs): `validate` and the texts of its problems.
pub mod Rules
pub mod Targets
pub mod Examples
use you_spin_me.Prelude.{
  ℕ, suc, ◌+◌, Bool, true, false, not, ◌&&◌, ◌||◌, Option, none, some, List, [], ◌∷◌, ◌++◌,
  if◌then◌else◌, Result, ok, err, and_then, is_nil, any, Bytes, codes, bytes_eq, contains, split,
  trim, decimal, join, ltb_ℤ,
}
use you_spin_me.Time.{SignedDuration, Jiff}
use you_spin_me.Duration
use you_spin_me.Duration.{ParseDurationError, invalid}
use you_spin_me.Crd.{ApiKeySpec, TargetSpec, OpenBaoTarget, reference, policy_path}
use you_spin_me.Schedule.{parsed}
use you_spin_me.Glob.{PathAllowList, allows}

-- The crates outside the repository that validation calls: `jiff`, the `url` crate, and the standard
-- library's `{:?}` for texts, whose escapes depend on Unicode tables.
pub record Crates : Type 0 where
  pub jiff : Jiff
  -- The scheme of `Url::parse`, or none where that fails.
  pub url_scheme : Bytes → Option Bytes
  pub debug : Bytes → Bytes

module _ (crates : Crates) where
  -- `Display` of the error.
  show_error : ParseDurationError → Bytes
  show_error (invalid input) =
      codes "invalid duration "
      ++ (crates.debug input ++ codes ": expected <number><s|m|h|d|w>, e.g. 90d")

  duration_problem : Bytes → Option Bytes → List Bytes
  duration_problem field none = []
  duration_problem field (some v) = elim (Duration.parse crates.jiff v) [
    | ok d ↦ []
    | err e ↦ (field ++ (codes ": " ++ show_error e)) ∷ []
  ]

  order_problem : Option SignedDuration → Option SignedDuration → List Bytes
  order_problem (some w) (some c) =
      if ltb_ℤ w c
      then codes "rotation.criticalBefore is longer than rotation.warnBefore" ∷ []
      else []
  order_problem (some w) none = []
  order_problem none c = []

  url_problem : Option Bytes → List Bytes
  url_problem none = []
  url_problem (some url) =
      let bad = (codes "renewUrl: " ++ (crates.debug url ++ codes " is not an http(s) URL")) ∷ [] in
      elim (crates.url_scheme url) [
        | some scheme ↦
            if bytes_eq scheme (codes "https") || bytes_eq scheme (codes "http") then [] else bad
        | none ↦ bad
      ]

abbrev at_target : ℕ → Bytes → Bytes
at_target i rest = codes "targets[" ++ (decimal i ++ (codes "]" ++ rest))

field_problem : ℕ → Bytes → Bytes → List Bytes
field_problem i field value =
    if is_nil (trim value)
    then at_target i (codes ".openbao." ++ (field ++ codes " is empty")) ∷ []
    else []

path_problem : ℕ → OpenBaoTarget → List Bytes
path_problem i t =
    if any (λ s. bytes_eq s (codes "..")) (split b'/' t.path) || contains b'/' t.mount
    then at_target i (codes ".openbao: invalid mount or path") ∷ []
    else []

allow_problem : PathAllowList → ℕ → OpenBaoTarget → List Bytes
allow_problem allowed i t =
    if not (allows allowed (policy_path t))
    then at_target i (
        codes ": "
        ++ (policy_path t
            ++ (codes " is not in allowedPaths ("
                ++ (join (codes ", ") allowed.patterns ++ codes ")"))))
      ∷ []
    else []

duplicate_problem : List Bytes → ℕ → OpenBaoTarget → List Bytes
duplicate_problem seen i t =
    if any (λ s. bytes_eq s (reference t)) seen
    then at_target i (codes ": duplicate target " ++ reference t) ∷ []
    else []

openbao_problems : PathAllowList → List Bytes → ℕ → OpenBaoTarget → List Bytes
openbao_problems allowed seen i t =
    field_problem i (codes "mount") t.mount
    ++ (field_problem i (codes "path") t.path
        ++ (field_problem i (codes "key") t.key
            ++ (path_problem i t ++ (allow_problem allowed i t ++ duplicate_problem seen i t))))

-- The loop over the targets; `seen` is the hash set of references.
pub target_problems : PathAllowList → List Bytes → ℕ → List TargetSpec → List Bytes
target_problems allowed seen i [] = []
target_problems allowed seen i (target ∷ targets) = elim target.openbao [
  | none ↦
      at_target i (codes ": no target type set (expected openbao)")
      ∷ target_problems allowed seen (i + 1) targets
  | some t ↦
      openbao_problems allowed seen i t
      ++ target_problems allowed (reference t ∷ seen) (i + 1) targets
]

unfoldable pub validate : Crates → ApiKeySpec → PathAllowList → List Bytes
unfolding duration_problem show_error order_problem url_problem target_problems openbao_problems
    field_problem path_problem allow_problem duplicate_problem
validate crates spec allowed =
    let rotation = spec.rotation in
    duration_problem crates (codes "rotation.maxAge") rotation.max_age
    ++ (duration_problem crates (codes "rotation.warnBefore") rotation.warn_before
        ++ (duration_problem crates (codes "rotation.criticalBefore") rotation.critical_before
            ++ (order_problem crates (parsed crates.jiff rotation.warn_before)
                  (parsed crates.jiff rotation.critical_before)
                ++ (url_problem crates spec.renew_url
                    ++ target_problems allowed [] 0 spec.targets))))
