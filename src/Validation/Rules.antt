-- ===== src/Validation/Rules.antt =====
-- Which specs `validate` accepts.
use you_spin_me.Prelude.{
  ◌≡◌, ◌↔◌, ◌⊎◌, inl, inr, refl, arith, Option, none, some, Option-cases, [], append-eq-nil, Bytes,
  codes, bytes_eq_iff, trim, ◌≤ℤ◌,
}
use you_spin_me.Time.{SignedDuration}
use you_spin_me.Duration.Grammar.{IsDuration, parse_iff}
use you_spin_me.Crd.{ApiKeySpec}
use you_spin_me.Schedule.{parsed}
use you_spin_me.Glob.{PathAllowList}
use you_spin_me.Validation.{Crates, duration_problem, order_problem, url_problem, validate}
use you_spin_me.Validation.Targets.{AllWritable, target_problems_iff}

-- A duration of the spec: left out, or well formed.
abbrev pub IsAge : Option Bytes → Type 0
IsAge none = Unit
IsAge (some s) = (secs : _) × IsDuration (trim s) secs

module _ (crates : Crates) where
  abbrev pub IsHttp : Option Bytes → Type 0
  IsHttp none = Unit
  IsHttp (some url) =
      (crates.url_scheme url ≡ some (codes "https")) ⊎ (crates.url_scheme url ≡ some (codes "http"))

  abbrev pub IsOrdered : Option SignedDuration → Option SignedDuration → Type 0
  IsOrdered (some w) (some c) = c ≤ℤ w
  IsOrdered _ _ = Unit

  pub record IsValid (spec : ApiKeySpec) (allowed : PathAllowList) : Type 0 where
    pub max_age : IsAge spec.rotation.max_age
    pub warn_before : IsAge spec.rotation.warn_before
    pub critical_before : IsAge spec.rotation.critical_before
    pub ordered :
        IsOrdered
          (parsed crates.jiff spec.rotation.warn_before)
          (parsed crates.jiff spec.rotation.critical_before)
    pub renew_url : IsHttp spec.renew_url
    pub targets : AllWritable allowed [] spec.targets

  duration_problem_iff :
      (field : Bytes) (v : Option Bytes) → (duration_problem crates field v ≡ []) ↔ IsAge v
  unfolding duration_problem
  duration_problem_iff field none = (λ h. tt, λ h. refl)
  duration_problem_iff field (some s) = elim (parse_iff crates.jiff s) [
    | inl (secs, d, e) ↦ (λ h. (secs, d), λ m. ground arith)
    | inr (no_one, e) ↦ (λ h. absurd (ground arith), λ m. absurd (no_one m.0 m.1))
  ]

  order_problem_iff :
      (w c : Option SignedDuration) → (order_problem crates w c ≡ []) ↔ IsOrdered w c
  unfolding order_problem
  order_problem_iff (some w) (some c) = ground arith
  order_problem_iff (some w) none = (λ h. tt, λ h. refl)
  order_problem_iff none _ = (λ h. tt, λ h. refl)

  url_problem_iff : (url : Option Bytes) → (url_problem crates url ≡ []) ↔ IsHttp url
  unfolding url_problem
  url_problem_iff none = (λ h. tt, λ h. refl)
  url_problem_iff (some url) = elim (Option-cases (crates.url_scheme url)) [
    | inl e ↦ (λ h. absurd (ground arith), λ m. absurd (ground arith))
    | inr (scheme, e) ↦
        ground (arith, bytes_eq_iff scheme (codes "https"), bytes_eq_iff scheme (codes "http"))
  ]

  -- `validate` reports no problem exactly for a valid spec: its durations are well formed or left
  -- out, the critical threshold is no longer than the warning one, the renewal URL is http or https,
  -- and every target names a store, is writable and permitted, and has a reference of its own.
  pub validate_iff :
      (spec : ApiKeySpec) (allowed : PathAllowList)
      → (validate crates spec allowed ≡ []) ↔ IsValid spec allowed
  unfolding validate
  validate_iff spec allowed = (
    λ h.
        let (a, h1) = (append-eq-nil _ _).0 h in
        let (b, h2) = (append-eq-nil _ _).0 h1 in
        let (c, h3) = (append-eq-nil _ _).0 h2 in
        let (d, h4) = (append-eq-nil _ _).0 h3 in
        let (e, f) = (append-eq-nil _ _).0 h4 in
        record {
          max_age = (duration_problem_iff (codes "rotation.maxAge") spec.rotation.max_age).0 a;
          warn_before =
              (duration_problem_iff (codes "rotation.warnBefore") spec.rotation.warn_before).0 b;
          critical_before =
              (duration_problem_iff (codes "rotation.criticalBefore")
                  spec.rotation.critical_before).0
                c;
          ordered = (order_problem_iff _ _).0 d;
          renew_url = (url_problem_iff spec.renew_url).0 e;
          targets = (target_problems_iff allowed [] 0 spec.targets).0 f;
        },
    λ v. rw (
      (duration_problem_iff (codes "rotation.maxAge") spec.rotation.max_age).1 v.max_age,
      (duration_problem_iff (codes "rotation.warnBefore") spec.rotation.warn_before).1
          v.warn_before,
      (duration_problem_iff (codes "rotation.criticalBefore") spec.rotation.critical_before).1
          v.critical_before,
      (order_problem_iff _ _).1 v.ordered,
      (url_problem_iff spec.renew_url).1 v.renew_url,
      (target_problems_iff allowed [] 0 spec.targets).1 v.targets,
    ),
  )
