-- ===== src/KubeRepository/Settled.antt =====
-- The `Valid` condition: what it says, and that the controller comes to rest.
use you_spin_me.Prelude.{
  ◌≡◌, ◌↔◌, ◌⊎◌, inl, inr, refl, subst, arith, Bool, true, not, Option, none, some, Bool-cases,
  List, [], ◌∷◌, ◌++◌, keep, unwrap_or, Bytes, codes, bytes_eq, bytes_eq_iff, bytes_eq_refl, ℤ, pos,
  negsuc,
}
use you_spin_me.Time.{Timestamp}
use you_spin_me.Crd.{ApiKey, Condition, empty_status, condition, find_condition}
use you_spin_me.Glob.{PathAllowList}
use you_spin_me.Validation.{Crates, validate}
use you_spin_me.Validation.Rules.{IsValid, validate_iff}
use you_spin_me.KubeRepository.{
  valid_condition, same_generation, verdict, is_current, condition_of, desired_valid_condition,
  patched,
}

-- The key when its conditions have been patched.
abbrev pub with_condition : ApiKey → Condition → ApiKey
with_condition key c = record key {
  status = some (record (unwrap_or key.status empty_status) { conditions = patched key c });
}

find_condition-keep :
    (c : Condition) (cs : List Condition)
    → c.type_ ≡ valid_condition
    → find_condition valid_condition
        (keep (λ x. not (bytes_eq x.type_ valid_condition)) cs ++ c ∷ [])
      ≡ some c
unfolding find_condition
find_condition-keep c [] h = ground (arith, bytes_eq_iff c.type_ valid_condition)
find_condition-keep c (x ∷ cs) h =
    ground (arith, bytes_eq_iff c.type_ valid_condition, find_condition-keep c cs h)

condition-patched :
    (key : ApiKey) (c : Condition)
    → c.type_ ≡ valid_condition
    → condition (with_condition key c) valid_condition ≡ some c
unfolding condition
condition-patched key c h = find_condition-keep c _ h

same_generation_refl : (g : Option ℤ) → same_generation g g ≡ true
same_generation_refl none = refl
same_generation_refl (some (pos n)) = ground arith
same_generation_refl (some (negsuc n)) = ground arith

is_current_refl :
    (c : Condition) → is_current c.status c.message c.observed_generation (some c) ≡ true
is_current_refl c =
    rw (bytes_eq_refl c.status, bytes_eq_refl c.message, same_generation_refl c.observed_generation)

module _ (crates : Crates) (allowed : PathAllowList) where
  abbrev verdict_of : ApiKey → Bytes × Bytes × Bytes
  verdict_of key = verdict (validate crates key.spec allowed)

  -- Does the condition that is there tell the verdict, for this generation of the key?
  abbrev up_to_date : ApiKey → Bool
  up_to_date key =
      is_current (verdict_of key).0 (verdict_of key).2 key.metadata.generation
        (condition key valid_condition)

  desired-none :
      (key : ApiKey) (now : Timestamp)
      → up_to_date key ≡ true
      → desired_valid_condition crates key allowed now ≡ none
  unfolding desired_valid_condition
  desired-none key now h = rw h refl

  -- What a desired condition holds.
  abbrev IsTold : ApiKey → Condition → Type 0
  IsTold key c =
      (c.type_ ≡ valid_condition)
      × (c.status ≡ (verdict_of key).0)
      × (c.message ≡ (verdict_of key).2)
      × (c.observed_generation ≡ key.metadata.generation)

  desired-cases :
      (key : ApiKey) (now : Timestamp)
      → ((up_to_date key ≡ true) × (desired_valid_condition crates key allowed now ≡ none))
        ⊎ ((c : Condition) × (desired_valid_condition crates key allowed now ≡ some c)
            × IsTold key c)
  unfolding desired_valid_condition
  desired-cases key now = elim (Bool-cases (up_to_date key)) [
    | inl b ↦ inl (b, rw b refl)
    | inr b ↦ inr (condition_of (verdict_of key) key now, rw b refl, (refl, refl, refl, refl))
  ]

  patched_up_to_date :
      (key : ApiKey) (c : Condition) → IsTold key c → up_to_date (with_condition key c) ≡ true
  patched_up_to_date key c (kind, s, m, g) =
      rw (condition-patched key c kind) (rw (← s, ← m, ← g) (is_current_refl c))

  -- `True` or `False`, as the spec is.
  True_iff : (key : ApiKey) → ((verdict_of key).0 ≡ codes "True") ↔ IsValid crates key.spec allowed
  True_iff key = ground (arith, validate_iff crates key.spec allowed)

  -- The controller comes to rest: when it finds a condition to patch in, that condition says "True"
  -- exactly if the spec is valid, and once it is patched in there is none to patch in any more, at
  -- whatever time the key is looked at again.
  pub desired_valid_condition-settles :
      (key : ApiKey) (now later : Timestamp) (c : Condition)
      → desired_valid_condition crates key allowed now ≡ some c
      → ((c.status ≡ codes "True") ↔ IsValid crates key.spec allowed)
        × (condition (with_condition key c) valid_condition ≡ some c)
        × (desired_valid_condition crates (with_condition key c) allowed later ≡ none)
  desired_valid_condition-settles key now later c h = elim (desired-cases key now) [
    | inl (_, e) ↦ absurd (ground arith)
    | inr (c', e, told) ↦
        let same : c' ≡ c = ground arith in
        let told' = subst (IsTold key) same told in
        (
          rw told'.1 (True_iff key),
          condition-patched key c told'.0,
          desired-none (with_condition key c) later (patched_up_to_date key c told'),
        )
  ]
