-- ===== src/Rotator/Returns.antt =====
-- When a rotation over the in-memory repository returns an outcome.
use you_spin_me.Prelude.{
  ◌≡◌, ◌⊎◌, inl, inr, refl, ap, ◌∙◌, arith, true, false, Option, some, [], map, ok, Result-cases,
  is_nil, Bytes, trim,
}
use you_spin_me.Time.{Timestamp}
use you_spin_me.Crd.{ApiKey, is_generic, target_reference}
use you_spin_me.Glob.{PathAllowList}
use you_spin_me.Providers.{ProbeResult, Prober}
use you_spin_me.Repo.Memory.{MemoryRepository, get}
use you_spin_me.Repo.Memory.Laws.{update_status-found}
use you_spin_me.Rotation.{RotateRequest, ProbeOutcome, RotateOutcome}
use you_spin_me.Rotator.Records.{over_memory, probe_key-repo}
use you_spin_me.Rotator.Safety.{rotate_submitted}
use you_spin_me.Rotator.{
  Rotator, World, admit, probe_key, submit, conclude, written, record_outcomes, probe_status,
  all_written, rotate,
}
use you_spin_me.Targets.{TargetWriter}
use you_spin_me.Validation.{Crates, validate}

-- The provider has nothing against the key, is not asked, or cannot be.
abbrev pub IsUnopposed : Prober → ApiKey → RotateRequest → Type 0
IsUnopposed prober key req =
    (req.skip_verification ≡ true)
    ⊎ (is_generic key.spec.provider ≡ true)
    ⊎ ((answer : Option ProbeResult) × (prober key.spec.provider req.value ≡ ok answer))

module _ {W : Type 0} (crates : Crates) (writer : TargetWriter W) (prober : Prober)
    (allowed : PathAllowList) where
  abbrev self : Rotator MemoryRepository W
  self = over_memory crates writer prober allowed

  admit-ok :
      (w : World MemoryRepository W) (name : Bytes) (req : RotateRequest) (key : ApiKey)
      → get w.repo name ≡ some key
      → is_nil (trim req.value) ≡ false
      → is_nil key.spec.targets ≡ false
      → validate crates key.spec allowed ≡ []
      → admit self w name req ≡ ok key
  unfolding admit
  admit-ok w name req key there full targets valid =
      rw (there, admit) (rw (full, targets) (rw valid refl))

  probe_key-ok :
      (w : World MemoryRepository W) (key : ApiKey) (req : RotateRequest)
      → IsUnopposed prober key req
      → (p : ProbeOutcome) × ((probe_key self w key req).1 ≡ ok p)
  unfolding probe_key
  probe_key-ok w key req h = elim (Result-cases (probe_key self w key req).1) [
    | inl (p, q) ↦ (p, q)
    | inr (e, q) ↦ absurd (ground arith)
  ]

  submit-ok :
      (w : World MemoryRepository W) (name : Bytes) (key found : ApiKey) (req : RotateRequest)
      (p : ProbeOutcome) (now : Timestamp)
      → get w.repo name ≡ some found
      → (o : RotateOutcome) × ((submit self w name key req p now).1 ≡ ok o)
  unfolding submit conclude
  submit-ok w name key found req p now there =
      let (saves, _) =
        update_status-found w.repo name
          (record_outcomes (map target_reference key.spec.targets) (written self w key req).1 now
            req (probe_status now p) (all_written (written self w key req).1))
          found there in
      elim (Result-cases (submit self w name key req p now).1) [
        | inl (o, q) ↦ (o, q)
        | inr (e, q) ↦ absurd (ground arith)
      ]

  -- A rotation returns an outcome, whatever the writes do, if the key is there with a valid spec and
  -- targets, the value is not blank, and verification is skipped, the provider is the generic one, or
  -- its probe does not fail.
  pub rotate-returns :
      (w : World MemoryRepository W) (name : Bytes) (req : RotateRequest) (now : Timestamp)
      (key : ApiKey)
      → get w.repo name ≡ some key
      → is_nil (trim req.value) ≡ false
      → is_nil key.spec.targets ≡ false
      → validate crates key.spec allowed ≡ []
      → IsUnopposed prober key req
      → (o : RotateOutcome) × ((rotate self w name req now).1 ≡ ok o)
  rotate-returns w name req now key there full targets valid unopposed =
      let admitted = admit-ok w name req key there full targets valid in
      let (p, probed) = probe_key-ok w key req unopposed in
      let untouched = probe_key-repo self w key req p probed in
      let (o, returned) =
        submit-ok (probe_key self w key req).0 name key key req p now
          (ap (λ r. get r name) untouched ∙ there) in
      (o, ap (λ a. a.1) (rotate_submitted self w name req now admitted probed) ∙ returned)
