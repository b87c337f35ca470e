-- ===== src/Rotator/Safety.antt =====
-- What `rotate` leaves alone, and what its result says of the writes.
use you_spin_me.Prelude.{
  ◌≡◌, ◌⊎◌, inl, inr, refl, sym, ap, ◌∙◌, arith, true, false, Result-cases, ◌++◌, Result, ok, err,
  Bytes, codes,
}
use you_spin_me.Time.{Timestamp}
use you_spin_me.Crd.{ApiKey, is_generic, as_str, label}
use you_spin_me.Providers.{ProbeError}
use you_spin_me.Metrics
use you_spin_me.Repo.{RepoError}
use you_spin_me.Rotation.{
  RotateRequest, ProbeOutcome, RotateOutcome, RotateError, probe_failed, status,
}
use you_spin_me.Rotator.{
  Rotator, World, admit, probe_key, submit, saved, rotate_inner, rotate, show_probe_error,
  probe_label, result_label,
}

-- An error of the last step, saving the status.
abbrev pub IsStatus : RotateError → Type 0
IsStatus e = (r : RepoError) × (e ≡ status r)

-- A result with the count of its label.
abbrev pub counted :
    {R W : Type 0}
    → World R W × Result RotateError RotateOutcome
    → World R W × Result RotateError RotateOutcome
counted x = (record x.0 { metrics = Metrics.rotation x.0.metrics (result_label x.1) }, x.1)

module _ {R W : Type 0} (self : Rotator R W) where
  pub rotate_refused :
      (w : World R W) (name : Bytes) (req : RotateRequest) (now : Timestamp) {e : RotateError}
      → admit self w name req ≡ err e
      → rotate self w name req now ≡ counted (w, err e)
  unfolding rotate rotate_inner
  rotate_refused w name req now q = rw (q, rotate_inner)

  pub rotate_unprobed :
      (w : World R W) (name : Bytes) (req : RotateRequest) (now : Timestamp) {key : ApiKey}
      {e : RotateError}
      → admit self w name req ≡ ok key
      → (probe_key self w key req).1 ≡ err e
      → rotate self w name req now ≡ counted ((probe_key self w key req).0, err e)
  unfolding rotate rotate_inner
  rotate_unprobed w name req now q q' = rw (q, rotate_inner) (rw q' refl)

  pub rotate_submitted :
      (w : World R W) (name : Bytes) (req : RotateRequest) (now : Timestamp) {key : ApiKey}
      {p : ProbeOutcome}
      → admit self w name req ≡ ok key
      → (probe_key self w key req).1 ≡ ok p
      → rotate self w name req now
        ≡ counted (submit self (probe_key self w key req).0 name key req p now)
  unfolding rotate rotate_inner
  rotate_submitted w name req now q q' = rw (q, rotate_inner) (rw q' refl)

  pub probe_key-store :
      (w : World R W) (key : ApiKey) (req : RotateRequest)
      → (probe_key self w key req).0.store ≡ w.store
  unfolding probe_key
  probe_key-store w key req = ground arith

  pub submit-err :
      (w : World R W) (name : Bytes) (key : ApiKey) (req : RotateRequest) (p : ProbeOutcome)
      (now : Timestamp) (e : RotateError)
      → (submit self w name key req p now).1 ≡ err e
      → IsStatus e
  unfolding submit
  submit-err w name key req p now e h = elim (Result-cases (saved self w name key req p now).1) [
    | inl (k, q) ↦ absurd (ground arith)
    | inr (r, q) ↦ (r, ground arith)
  ]

  -- A rotation that fails has written no target, unless it fails in saving the status.
  pub rotate-err-store :
      (w : World R W) (name : Bytes) (req : RotateRequest) (now : Timestamp) (e : RotateError)
      → (rotate self w name req now).1 ≡ err e
      → IsStatus e ⊎ ((rotate self w name req now).0.store ≡ w.store)
  rotate-err-store w name req now e h = elim (Result-cases (admit self w name req)) [
    | inr (e', q) ↦ inr (ap (λ x. x.0.store) (rotate_refused w name req now q))
    | inl (key, q) ↦ elim (Result-cases (probe_key self w key req).1) [
      | inr (e', q') ↦
          inr
            (ap (λ x. x.0.store) (rotate_unprobed w name req now q q') ∙ probe_key-store w key req)
      | inl (p, q') ↦ inl (
          submit-err _ name key req p now e
            (sym (ap (λ x. x.1) (rotate_submitted w name req now q q')) ∙ h))
    ]
  ]

  -- The world after a rejected probe.
  abbrev pub rejection : World R W → ApiKey → RotateRequest → ProbeError → World R W
  rejection w key req e = record w {
    repo = self.repository.record_event w.repo key (record {
      reason = codes "RotationRejected";
      note = label req.actor ++ (codes ": " ++ show_probe_error e);
      warning = true;
    });
    metrics = Metrics.probe w.metrics (as_str key.spec.provider) (probe_label e);
  }

  probe_rejected :
      (w : World R W) (key : ApiKey) (req : RotateRequest) (e : ProbeError)
      → req.skip_verification ≡ false
      → is_generic key.spec.provider ≡ false
      → self.prober key.spec.provider req.value ≡ err e
      → probe_key self w key req ≡ (rejection w key req e, err (probe_failed e))
  unfolding probe_key
  probe_rejected w key req e s g a = rw (s, g, a, probe_key)

  -- A request that passes the checks, does not skip verification and is for a provider other than the
  -- generic one, and whose probe fails: all that is done is to record an audit event and two counts,
  -- and the result is the error of the probe.
  pub rotate_rejected :
      (w : World R W) (name : Bytes) (req : RotateRequest) (now : Timestamp) (key : ApiKey)
      (e : ProbeError)
      → admit self w name req ≡ ok key
      → req.skip_verification ≡ false
      → is_generic key.spec.provider ≡ false
      → self.prober key.spec.provider req.value ≡ err e
      → rotate self w name req now ≡ (
        record (rejection w key req e) {
          metrics = Metrics.rotation (rejection w key req e).metrics (codes "rejected");
        },
        err (probe_failed e),
      )
  unfolding rotate rotate_inner
  rotate_rejected w name req now key e q s g a = ground (arith, probe_rejected w key req e s g a)
