-- ===== src/Rotator/Records.antt =====
-- What a rotation over the in-memory repository has recorded when it returns.
use you_spin_me.Prelude.{
  ◌≡◌, if◌then◌else◌, inl, inr, refl, sym, ap, ◌∙◌, arith, Bool, some, Result-cases, List, [], ◌∷◌,
  map, ok, Bytes, bytes_eq, unwrap_or, subst,
}
use you_spin_me.Time.{Timestamp}
use you_spin_me.Crd.{ApiKey, ApiKeyStatus, TargetSpec, target_reference, empty_status}
use you_spin_me.Validation.{Crates}
use you_spin_me.Glob.{PathAllowList}
use you_spin_me.Providers.{Prober}
use you_spin_me.Targets.{TargetWriter}
use you_spin_me.Repo.{AuditEvent}
use you_spin_me.Repo.Memory.{MemoryRepository, memory, get}
use you_spin_me.Repo.Memory.Laws.{update_status-found, get-record_event}
use you_spin_me.Rotation.{probed_expiry, RotateRequest, ProbeOutcome, RotateOutcome}
use you_spin_me.Rotator.{
  Rotator, World, write_targets, all_written, record_outcomes, probe_status, admit, probe_key,
  submit, conclude, saved, written, rotate, mismatch, outcome_event,
}
use you_spin_me.Rotator.Entries.{references}
use you_spin_me.Rotator.Writes.{Wrote, write_targets-Wrote}
use you_spin_me.Rotator.Safety.{probe_key-store, rotate_refused, rotate_unprobed, rotate_submitted}
use you_spin_me.Rotator.Recorded.{IsRecorded, outcomes-IsRecorded}

module _ {W : Type 0} (writer : TargetWriter W) where
  -- One outcome for each target, in their order.
  references-written :
      (value : Bytes) (targets : List TargetSpec) (store : W)
      → references (write_targets writer value targets store).1 ≡ map target_reference targets
  unfolding write_targets
  references-written value [] store = refl
  references-written value (t ∷ ts) store =
      ap (λ rs. target_reference t ∷ rs)
        (references-written value ts (writer.write store t value).0)

-- A rotator over the in-memory repository.
abbrev pub over_memory :
    {W : Type 0} → Crates → TargetWriter W → Prober → PathAllowList → Rotator MemoryRepository W
over_memory crates writer prober allowed = record {
  crates = crates;
  repository = memory;
  writer = writer;
  prober = prober;
  allowed = allowed;
}

module _ {R W : Type 0} (self : Rotator R W) where
  pub admit-get :
      (w : World R W) (name : Bytes) (req : RotateRequest) (key : ApiKey)
      → admit self w name req ≡ ok key
      → self.repository.get w.repo name ≡ some key
  unfolding admit
  admit-get w name req key h = ground arith

  pub probe_key-repo :
      (w : World R W) (key : ApiKey) (req : RotateRequest) (p : ProbeOutcome)
      → (probe_key self w key req).1 ≡ ok p
      → (probe_key self w key req).0.repo ≡ w.repo
  unfolding probe_key
  probe_key-repo w key req p h = ground arith

  submit-store :
      (w : World R W) (name : Bytes) (key : ApiKey) (req : RotateRequest) (p : ProbeOutcome)
      (now : Timestamp)
      → (submit self w name key req p now).0.store ≡ (written self w key req).0
  unfolding submit conclude
  submit-store w name key req p now = elim (Result-cases (saved self w name key req p now).1) [
    | inl (k, q) ↦ rw (q, conclude) refl
    | inr (e, q) ↦ rw (q, conclude) refl
  ]

  submit-saved :
      (w : World R W) (name : Bytes) (key : ApiKey) (req : RotateRequest) (p : ProbeOutcome)
      (now : Timestamp) (o : RotateOutcome)
      → (submit self w name key req p now).1 ≡ ok o
      → (updated : ApiKey) × (clash : Bool) × (event : AuditEvent) × ((saved self w name key req p
            now).1
          ≡ ok updated)
        × (o ≡ record {
          probe = p;
          targets = (written self w key req).1;
          completed = all_written (written self w key req).1;
          expiry_mismatch = clash;
        })
        × ((submit self w name key req p now).0.repo
            ≡ self.repository.record_event (saved self w name key req p now).0 updated event)
  unfolding submit
  submit-saved w name key req p now o h = elim (Result-cases (saved self w name key req p now).1) [
    | inr (r, q) ↦ absurd (ground arith)
    | inl (updated, q) ↦ (
      updated,
      mismatch self.crates.jiff (probed_expiry (probe_status now p)) req.manual_expires_at,
      outcome_event req (written self w key req).1 (all_written (written self w key req).1),
      q,
      ground arith,
      ground arith,
    )
  ]

-- `o` and the world `after` it are what became of submitting the request for `key`, under `name` in
-- the world `before`.
abbrev pub Records :
    {W : Type 0}
    → TargetWriter W
    → World MemoryRepository W
    → World MemoryRepository W
    → Bytes
    → RotateRequest
    → Timestamp
    → ApiKey
    → RotateOutcome
    → Type 0
Records writer before after name req now key o =
    (s : ApiKeyStatus) × Wrote writer req.value before.store key.spec.targets o.targets after.store
    × (references o.targets ≡ map target_reference key.spec.targets)
    × ((other : Bytes)
        → get after.repo other ≡ (
            if bytes_eq name other
            then some (record key { status = some s })
            else get before.repo other))
    × IsRecorded now req o (unwrap_or key.status empty_status) s

Records-same :
    {W : Type 0} (writer : TargetWriter W) (v w after : World MemoryRepository W) (name : Bytes)
    (req : RotateRequest) (now : Timestamp) (key : ApiKey) (o : RotateOutcome)
    → v.repo ≡ w.repo
    → v.store ≡ w.store
    → Records writer v after name req now key o
    → Records writer w after name req now key o
Records-same writer v w after name req now key o repo store (s, wrote, refs, change, told) =
    (s, rw (← store) wrote, refs, rw (← repo) change, told)

module _ {W : Type 0} (crates : Crates) (writer : TargetWriter W) (prober : Prober)
    (allowed : PathAllowList) where
  abbrev self : Rotator MemoryRepository W
  self = over_memory crates writer prober allowed

  submit-Records :
      (w : World MemoryRepository W) (name : Bytes) (key : ApiKey) (req : RotateRequest)
      (p : ProbeOutcome) (now : Timestamp) (o : RotateOutcome)
      → get w.repo name ≡ some key
      → (submit self w name key req p now).1 ≡ ok o
      → Records writer w (submit self w name key req p now).0 name req now key o
  submit-Records w name key req p now o there h =
      let (updated, clash, event, q, eo, er) = submit-saved self w name key req p now o h in
      let os = (written self w key req).1 in
      let same = references-written writer req.value key.spec.targets w.store in
      let old = unwrap_or key.status empty_status in
      let mutate =
        record_outcomes (map target_reference key.spec.targets) os now req (probe_status now p)
          (all_written os) in
      rw eo (
        mutate old,
        subst (Wrote writer req.value w.store key.spec.targets os)
            (sym (submit-store self w name key req p now))
            (write_targets-Wrote writer req.value key.spec.targets w.store),
        same,
        λ other.
            ap (λ r. get r other) er
            ∙ get-record_event _ updated event other
            ∙ (update_status-found w.repo name mutate key there).1 other,
        rw (← same) (outcomes-IsRecorded now req p os clash old (all_written os) refl),
      )

  pub rotate-Records :
      (w : World MemoryRepository W) (name : Bytes) (req : RotateRequest) (now : Timestamp)
      (o : RotateOutcome)
      → (rotate self w name req now).1 ≡ ok o
      → (key : ApiKey) × (get w.repo name ≡ some key)
        × Records writer w (rotate self w name req now).0 name req now key o
  rotate-Records w name req now o h = elim (Result-cases (admit self w name req)) [
    | inr (e, q) ↦ absurd (cc (ap (λ x. x.1) (rotate_refused self w name req now q)))
    | inl (key, q) ↦ elim (Result-cases (probe_key self w key req).1) [
      | inr (e, q') ↦ absurd (cc (ap (λ x. x.1) (rotate_unprobed self w name req now q q')))
      | inl (p, q') ↦
          let all = rotate_submitted self w name req now q q' in
          let there = admit-get self w name req key q in
          let untouched = probe_key-repo self w key req p q' in
          (
            key,
            there,
            rw (ap (λ x. x.0.store) all, ap (λ x. x.0.repo) all)
                (Records-same writer (probe_key self w key req).0 w
                  (submit self (probe_key self w key req).0 name key req p now).0 name req now key o
                  untouched (probe_key-store self w key req)
                  (submit-Records (probe_key self w key req).0 name key req p now o
                    (rw untouched there) (sym (ap (λ x. x.1) all) ∙ h))),
          )
    ]
  ]
