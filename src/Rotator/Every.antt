-- ===== src/Rotator/Every.antt =====
-- A property of every status of the in-memory repository, and what keeps it.
use you_spin_me.Prelude.{
  ◌≡◌, inl, inr, refl, sym, subst, ◌∙◌, arith, Bool, Bool-cases, Option, some, Option-cases,
  Result-cases, if◌then◌else◌, List, unwrap_or, Bytes, bytes_eq, bytes_eq_iff,
}
use you_spin_me.Prelude.{map}
use you_spin_me.Time.{Timestamp, Jiff}
use you_spin_me.Crd.{ApiKey, ApiKeyStatus, Actor, empty_status, ProbeStatus, target_reference}
use you_spin_me.Validation.{Crates}
use you_spin_me.Glob.{PathAllowList}
use you_spin_me.Providers.{Prober}
use you_spin_me.Targets.{TargetWriter}
use you_spin_me.Repo.Memory.{MemoryRepository, memory, get, update_status}
use you_spin_me.Repo.Memory.Laws.{
  with_status, update_status-found, update_status-missing, get-record_event,
}
use you_spin_me.Rotation.{record_rotation, RotateRequest, ProbeOutcome, TargetOutcome}
use you_spin_me.Rotation.Recording.{IsDated, recording, record_rotation-recorded}
use you_spin_me.Rotator.Records.{over_memory}
use you_spin_me.Rotator.Safety.{rotate_refused, rotate_unprobed, rotate_submitted}
use you_spin_me.Rotator.{
  Rotator, World, record_outcomes, admit, probe_key, submit, conclude, saved, written, probe_status,
  all_written, rotate,
}

module _ (Q : Bytes → ApiKeyStatus → Type 0) where
  -- The status of every key, with the key's name.
  abbrev pub Every : MemoryRepository → Type 0
  Every r =
      (name : Bytes) (key : ApiKey)
      → get r name ≡ some key
      → Q name (unwrap_or key.status empty_status)

  -- A repository that reads the same.
  pub Every-same :
      (r t : MemoryRepository) → ((other : Bytes) → get t other ≡ get r other) → Every r → Every t
  Every-same r t same h name key e = h name key (sym (same name) ∙ e)

  -- One key's status changes.
  pub Every-changed :
      (r t : MemoryRepository) (name : Bytes) (key : ApiKey)
      → ((other : Bytes) → get t other ≡ (if bytes_eq name other then some key else get r other))
      → Q name (unwrap_or key.status empty_status)
      → Every r
      → Every t
  Every-changed r t name key change c h other k e = elim (Bool-cases (bytes_eq name other)) [
    | inl b ↦
        let same : key ≡ k = ground (arith, change other) in
        let named : name ≡ other = (bytes_eq_iff name other).0 b in
        subst (λ n. Q n (unwrap_or k.status empty_status)) named
          (subst (λ x. Q name (unwrap_or x.status empty_status)) same c)
    | inr b ↦ h other k (ground (arith, change other))
  ]

  update_status-Every :
      (r : MemoryRepository) (name : Bytes) (mutate : ApiKeyStatus → ApiKeyStatus)
      → ((s : ApiKeyStatus) → Q name s → Q name (mutate s))
      → Every r
      → Every (update_status r name mutate).0
  update_status-Every r name mutate keeps h = elim (Option-cases (get r name)) [
    | inl e ↦ rw (update_status-missing r name mutate e) h
    | inr (key, e) ↦
        Every-changed r _ name (with_status key mutate) (update_status-found r name mutate key e).1
          (keeps _ (h name key e)) h
  ]

module _ {W : Type 0} (crates : Crates) (writer : TargetWriter W) (prober : Prober)
    (allowed : PathAllowList) where
  abbrev self : Rotator MemoryRepository W
  self = over_memory crates writer prober allowed

  get-probe_key :
      (w : World MemoryRepository W) (key : ApiKey) (req : RotateRequest) (other : Bytes)
      → get (probe_key self w key req).0.repo other ≡ get w.repo other
  unfolding probe_key
  get-probe_key w key req other = grind (arith, get-record_event)

  get-submit :
      (w : World MemoryRepository W) (name : Bytes) (key : ApiKey) (req : RotateRequest)
      (p : ProbeOutcome) (now : Timestamp) (other : Bytes)
      → get (submit self w name key req p now).0.repo other
        ≡ get (saved self w name key req p now).0 other
  unfolding submit conclude
  get-submit w name key req p now other = elim (Result-cases (saved self w name key req p now).1) [
    | inl (k, q) ↦ rw (q, conclude) (get-record_event _ _ _ other)
    | inr (e, q) ↦ rw (q, conclude) refl
  ]

  module _ (Q : Bytes → ApiKeyStatus → Type 0) (name : Bytes) (now : Timestamp) where
    -- A rotation of the key keeps the property, whatever is written and probed.
    abbrev pub KeptByRotate : RotateRequest → Type 0
    KeptByRotate req =
        (refs : List Bytes) (os : List TargetOutcome) (probed : Option ProbeStatus)
        (completed : Bool) (s : ApiKeyStatus)
        → Q name s
        → Q name (record_outcomes refs os now req probed completed s)

    submit-Every :
        (w : World MemoryRepository W) (key : ApiKey) (req : RotateRequest) (p : ProbeOutcome)
        → KeptByRotate req
        → Every Q w.repo
        → Every Q (submit self w name key req p now).0.repo
    submit-Every w key req p keeps h =
        Every-same Q (saved self w name key req p now).0 _ (get-submit w name key req p now) (
          update_status-Every Q w.repo name _
            (keeps (map target_reference key.spec.targets) (written self w key req).1
              (probe_status now p) (all_written (written self w key req).1))
            h)

    pub rotate-Every :
        (w : World MemoryRepository W) (req : RotateRequest)
        → KeptByRotate req
        → Every Q w.repo
        → Every Q (rotate self w name req now).0.repo
    rotate-Every w req keeps h = elim (Result-cases (admit self w name req)) [
      | inr (e, q) ↦ rw (rotate_refused self w name req now q) h
      | inl (key, q) ↦
          let probed =
            Every-same Q w.repo (probe_key self w key req).0.repo (get-probe_key w key req) h in
          elim (Result-cases (probe_key self w key req).1) [
            | inr (e, q') ↦ rw (rotate_unprobed self w name req now q q') probed
            | inl (p, q') ↦
                rw (rotate_submitted self w name req now q q')
                  (submit-Every _ key req p keeps probed)
          ]
    ]

module _ (Q : Bytes → ApiKeyStatus → Type 0) (jiff : Jiff) where
  pub record_rotation-Every :
      (r : MemoryRepository) (name : Bytes) (actor : Actor) (at : Timestamp)
      (expires_at : Option Timestamp) (now : Timestamp)
      → ((s : ApiKeyStatus)
          → IsDated at expires_at now
          → Q name s
          → Q name (recording at actor expires_at s))
      → Every Q r
      → Every Q (record_rotation jiff memory r name actor at expires_at now).0
  record_rotation-Every r name actor at expires_at now keeps h =
      elim (record_rotation-recorded jiff r name actor at expires_at now) [
        | inr (e, _, same) ↦ rw same h
        | inl (dated, (key, there, result, change)) ↦
            Every-changed Q r _ name (with_status key (recording at actor expires_at)) change
              (keeps _ dated (h name key there)) h
      ]
