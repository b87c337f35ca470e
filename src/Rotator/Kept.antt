-- ===== src/Rotator/Kept.antt =====
-- What every change of the world keeps, a rotation keeps, and so does recording one: over any
-- repository, writer and prober.
use you_spin_me.Prelude.{inl, inr, Bool-cases, Option, some, none, ltb_ℤ, Result-cases, Bytes}
use you_spin_me.Time.{Timestamp, Jiff}
use you_spin_me.Crd.{ApiKey, ApiKeyStatus, Actor, recorded, is_generic}
use you_spin_me.Metrics
use you_spin_me.Repo.{Repository, AuditEvent}
use you_spin_me.Rotation.{
  before_rotation, apply_rotation, record_rotation, RotateRequest, ProbeOutcome,
}
use you_spin_me.Rotator.Safety.{rotate_refused, rotate_unprobed, rotate_submitted}
use you_spin_me.Rotator.{Rotator, World, admit, probe_key, submit, conclude, saved, written, rotate}

module _ {R W : Type 0} (repository : Repository R) where
  -- The single changes: of a status, by an audit event, of the targets, and of the counters.
  pub record Keeps (P : World R W → Type 0) : Type 0 where
    pub updates :
        (w : World R W) (name : Bytes) (mutate : ApiKeyStatus → ApiKeyStatus)
        → P w
        → P (record w { repo = (repository.update_status w.repo name mutate).0 })
    pub notes :
        (w : World R W) (key : ApiKey) (event : AuditEvent)
        → P w
        → P (record w { repo = repository.record_event w.repo key event })
    pub stores : (w : World R W) (store : W) → P w → P (record w { store = store })
    pub counts :
        (w : World R W) (label : Bytes)
        → P w
        → P (record w { metrics = Metrics.rotation w.metrics label })
    pub probes :
        (w : World R W) (provider label : Bytes)
        → P w
        → P (record w { metrics = Metrics.probe w.metrics provider label })

module _ {R W : Type 0} (self : Rotator R W) (P : World R W → Type 0)
    (keeps : Keeps self.repository P) where
  probe_key-Kept :
      (w : World R W) (key : ApiKey) (req : RotateRequest) → P w → P (probe_key self w key req).0
  unfolding probe_key
  probe_key-Kept w key req h = elim (Bool-cases req.skip_verification) [
    | inl s ↦ rw s h
    | inr s ↦ elim (Bool-cases (is_generic key.spec.provider)) [
      | inl g ↦ rw (s, g) h
      | inr g ↦ elim (Result-cases (self.prober key.spec.provider req.value)) [
        | inr (e, p) ↦ rw (s, g, p) (keeps.probes _ _ _ (keeps.notes w key _ h))
        | inl (none, p) ↦ rw (s, g, p) h
        | inl (some result, p) ↦ rw (s, g, p) (keeps.probes w _ _ h)
      ]
    ]
  ]

  submit-Kept :
      (w : World R W) (name : Bytes) (key : ApiKey) (req : RotateRequest) (p : ProbeOutcome)
      (now : Timestamp)
      → P w
      → P (submit self w name key req p now).0
  unfolding submit conclude
  submit-Kept w name key req p now h =
      let updated = keeps.stores _ (written self w key req).0 (keeps.updates w name _ h) in
      elim (Result-cases (saved self w name key req p now).1) [
        | inr (e, q) ↦ rw (q, conclude) updated
        | inl (k, q) ↦ rw (q, conclude) (keeps.notes _ k _ updated)
      ]

  pub rotate-Kept :
      (w : World R W) (name : Bytes) (req : RotateRequest) (now : Timestamp)
      → P w
      → P (rotate self w name req now).0
  rotate-Kept w name req now h = elim (Result-cases (admit self w name req)) [
    | inr (e, q) ↦ rw (rotate_refused self w name req now q) (keeps.counts w _ h)
    | inl (key, q) ↦
        let probed = probe_key-Kept w key req h in
        elim (Result-cases (probe_key self w key req).1) [
          | inr (e, q') ↦ rw (rotate_unprobed self w name req now q q') (keeps.counts _ _ probed)
          | inl (p, q') ↦
              rw (rotate_submitted self w name req now q q')
                (keeps.counts _ _ (submit-Kept _ name key req p now probed))
        ]
  ]

module _ {R W : Type 0} (jiff : Jiff) (repository : Repository R) (P : World R W → Type 0)
    (keeps : Keeps repository P) where
  pub record_rotation-Kept :
      (w : World R W) (name : Bytes) (actor : Actor) (at : Timestamp)
      (expires_at : Option Timestamp) (now : Timestamp)
      → P w
      → P (record w {
        repo = (record_rotation jiff repository w.repo name actor at expires_at now).0;
      })
  unfolding record_rotation
  record_rotation-Kept w name actor at expires_at now h = elim (Bool-cases (ltb_ℤ now at)) [
    | inl late ↦ rw late h
    | inr past ↦ elim (Bool-cases (before_rotation expires_at at)) [
      | inl early ↦ rw (past, early) h
      | inr after ↦
          let mutate =
            λ (status : ApiKeyStatus). apply_rotation status at actor recorded expires_at none in
          let updated = keeps.updates w name mutate h in
          elim (Result-cases (repository.update_status w.repo name mutate).1) [
            | inr (e, q) ↦ rw (past, after, q) updated
            | inl (k, q) ↦ rw (past, after, q) (keeps.notes _ k _ updated)
          ]
    ]
  ]
