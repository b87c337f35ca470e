-- ===== src/Validation/Targets.antt =====
-- Which targets `validate` accepts.
use you_spin_me.Prelude.{
  ℕ, ◌+◌, ◌≡◌, ◌≢◌, ◌↔◌, ◌⊎◌, inl, inr, refl, subst, arith, true, false, some, Option-cases,
  Bool-cases, List, [], ◌∷◌, any, All, append-eq-nil, Bytes, codes, bytes_eq, bytes_eq_iff,
  contains, split, trim, Lacks,
}
use you_spin_me.Crd.{TargetSpec, OpenBaoTarget, reference, policy_path}
use you_spin_me.Glob.{PathAllowList, allows, glob_match}
use you_spin_me.Glob.Semantics.{GlobMatches, glob_match_iff}
use you_spin_me.Validation.{
  field_problem, path_problem, allow_problem, duplicate_problem, openbao_problems, target_problems,
}

-- Some pattern of the list matches.
abbrev pub AnyMatches : List Bytes → Bytes → Type 0
AnyMatches [] path = ⊥
AnyMatches (p ∷ ps) path = GlobMatches p path ⊎ AnyMatches ps path

pub record IsWritable (allowed : PathAllowList) (t : OpenBaoTarget) : Type 0 where
  pub mount : trim t.mount ≢ []
  pub path : trim t.path ≢ []
  pub key : trim t.key ≢ []
  pub inside : All (λ s. s ≢ codes "..") (split b'/' t.path)
  pub one_mount : Lacks b'/' t.mount
  pub permitted : AnyMatches allowed.patterns (policy_path t)

-- Every target names a store, is writable, and differs in its reference from those before it.
abbrev pub AllWritable : PathAllowList → List Bytes → List TargetSpec → Type 0
AllWritable allowed seen [] = Unit
AllWritable allowed seen (target ∷ targets) =
    (t : OpenBaoTarget) × (target.openbao ≡ some t)
    × IsWritable allowed t
    × All (λ s. s ≢ reference t) seen
    × AllWritable allowed (reference t ∷ seen) targets

any-false :
    (P : Bytes) (seen : List Bytes) → (any (λ s. bytes_eq s P) seen ≡ false) ↔ All (λ s. s ≢ P) seen
any-false p [] = (λ h. tt, λ h. refl)
any-false p (s ∷ seen) = ground (arith, bytes_eq_iff s p, any-false p seen)

contains-false : (c : ℕ) (s : Bytes) → (contains c s ≡ false) ↔ Lacks c s
unfolding contains
contains-false c [] = (λ h. tt, λ h. refl)
contains-false c (x ∷ s) = ground (arith, contains-false c s)

allows_iff :
    (ps : List Bytes) (path : Bytes) → (any (λ p. glob_match p path) ps ≡ true) ↔ AnyMatches ps path
allows_iff [] path = (λ h. absurd (ground arith), λ h. absurd h)
allows_iff (p ∷ ps) path =
    let (to, from) = allows_iff ps path in
    let (to', from') = glob_match_iff p path in
    elim (Bool-cases (glob_match p path)) [
      | inl e ↦ (λ h. inl (to' e), λ m. rw e)
      | inr e ↦ (
        λ h. inr (to (rw e at h)),
        λ m. rw e (elim m [ inl x ↦ absurd (cc (from' x)) | inr x ↦ from x ]),
      )
    ]

field_problem_iff : (i : ℕ) (f v : Bytes) → (field_problem i f v ≡ []) ↔ (trim v ≢ [])
unfolding field_problem
field_problem_iff i f v = ground arith

path_problem_iff :
    (i : ℕ) (t : OpenBaoTarget)
    → (path_problem i t ≡ []) ↔ (All (λ s. s ≢ codes "..") (split b'/' t.path) × Lacks b'/' t.mount)
unfolding path_problem
path_problem_iff i t =
    ground (arith, any-false (codes "..") (split b'/' t.path), contains-false b'/' t.mount)

allow_problem_iff :
    (allowed : PathAllowList) (i : ℕ) (t : OpenBaoTarget)
    → (allow_problem allowed i t ≡ []) ↔ AnyMatches allowed.patterns (policy_path t)
unfolding allow_problem allows
allow_problem_iff allowed i t = elim (Bool-cases (allows allowed (policy_path t))) [
  | inl e ↦ (λ h. (allows_iff allowed.patterns (policy_path t)).0 e, λ m. ground arith)
  | inr e ↦ (
    λ h. absurd (ground arith),
    λ m. absurd (cc (e, (allows_iff allowed.patterns (policy_path t)).1 m)),
  )
]

duplicate_problem_iff :
    (seen : List Bytes) (i : ℕ) (t : OpenBaoTarget)
    → (duplicate_problem seen i t ≡ []) ↔ All (λ s. s ≢ reference t) seen
unfolding duplicate_problem
duplicate_problem_iff seen i t = ground (arith, any-false (reference t) seen)

openbao_problems_iff :
    (allowed : PathAllowList) (seen : List Bytes) (i : ℕ) (t : OpenBaoTarget)
    → (openbao_problems allowed seen i t ≡ [])
      ↔ (IsWritable allowed t × All (λ s. s ≢ reference t) seen)
unfolding openbao_problems
openbao_problems_iff allowed seen i t = (
  λ h.
      let (a, h1) = (append-eq-nil _ _).0 h in
      let (b, h2) = (append-eq-nil _ _).0 h1 in
      let (c, h3) = (append-eq-nil _ _).0 h2 in
      let (d, h4) = (append-eq-nil _ _).0 h3 in
      let (e, f) = (append-eq-nil _ _).0 h4 in
      let (inside, one) = (path_problem_iff i t).0 d in
      (
        record {
          mount = (field_problem_iff i (codes "mount") t.mount).0 a;
          path = (field_problem_iff i (codes "path") t.path).0 b;
          key = (field_problem_iff i (codes "key") t.key).0 c;
          inside = inside;
          one_mount = one;
          permitted = (allow_problem_iff allowed i t).0 e;
        },
        (duplicate_problem_iff seen i t).0 f,
      ),
  λ (w, fresh). rw (
    (field_problem_iff i (codes "mount") t.mount).1 w.mount,
    (field_problem_iff i (codes "path") t.path).1 w.path,
    (field_problem_iff i (codes "key") t.key).1 w.key,
    (path_problem_iff i t).1 (w.inside, w.one_mount),
    (allow_problem_iff allowed i t).1 w.permitted,
    (duplicate_problem_iff seen i t).1 fresh,
  ),
)

pub target_problems_iff :
    (allowed : PathAllowList) (seen : List Bytes) (i : ℕ) (targets : List TargetSpec)
    → (target_problems allowed seen i targets ≡ []) ↔ AllWritable allowed seen targets
unfolding target_problems
target_problems_iff allowed seen i [] = (λ h. tt, λ h. refl)
target_problems_iff allowed seen i (target ∷ targets) = elim (Option-cases target.openbao) [
  | inl e ↦ (λ h. absurd (ground arith), λ m. absurd (ground (arith, m.1)))
  | inr (t, e) ↦
      let (to, from) = openbao_problems_iff allowed seen i t in
      let (to', from') = target_problems_iff allowed (reference t ∷ seen) (i + 1) targets in
      let (apart, together) =
        append-eq-nil (openbao_problems allowed seen i t)
          (target_problems allowed (reference t ∷ seen) (i + 1) targets) in
      (
        λ h.
            let (now, later) = apart (ground arith) in
            let (w, fresh) = to now in (t, e, w, fresh, to' later),
        λ m.
            let same : m.0 ≡ t = ground (arith, m.1) in
            let (w, fresh, more) =
              subst
                (λ u.
                  IsWritable allowed u
                  × All (λ s. s ≢ reference u) seen
                  × AllWritable allowed (reference u ∷ seen) targets)
                same (m.2, m.3, m.4) in
            ground (arith, together (from (w, fresh), from' more)),
      )
]
