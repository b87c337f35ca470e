-- ===== src/Rotator/Blind.antt =====
-- The key's value goes to the prober and the writer, and nowhere else.
use you_spin_me.Prelude.{
  ◌≡◌, refl, inl, inr, subst, sym, ap, ◌∙◌, arith, Result-cases, List, [], ◌∷◌, Result, is_nil,
  Bytes, codes, trim,
}
use mathlib.Core.Path.{subst₂, ap₂}
use you_spin_me.Time.{Timestamp}
use you_spin_me.Crd.{ApiKey, TargetSpec, Provider}
use you_spin_me.Metrics
use you_spin_me.Metrics.{Metrics}
use you_spin_me.Rotation.{RotateRequest, ProbeOutcome, TargetOutcome, RotateOutcome, RotateError}
use you_spin_me.Rotator.Safety.{counted, rotate_refused, rotate_unprobed, rotate_submitted}
use you_spin_me.Rotator.{
  Rotator, World, write_targets, record_outcomes, admit, probe_key, submit, saved_as, conclude,
  rotate, result_label,
}

abbrev pub with_value : RotateRequest → Bytes → RotateRequest
with_value req v = record req { value = v }

abbrev pub world : {R W : Type 0} → R → Metrics → W → World R W
world r m s = record { repo = r; store = s; metrics = m }

-- Two runs that an observer of the repository, the metrics and the result cannot tell apart.
abbrev pub Alike : {R W X : Type 0} → (W → W → Type 0) → World R W × X → World R W × X → Type 0
Alike Sim a b =
    (a.1 ≡ b.1) × (a.0.repo ≡ b.0.repo) × (a.0.metrics ≡ b.0.metrics) × Sim a.0.store b.0.store

counted-Alike :
    {R W : Type 0} (Sim : W → W → Type 0) (a b : World R W × Result RotateError RotateOutcome)
    → Alike Sim a b
    → Alike Sim (counted a) (counted b)
counted-Alike Sim a b (result, repos, counts, stores) =
    (result, repos, ap₂ (λ c o. Metrics.rotation c (result_label o)) counts result, stores)

module _ {R W : Type 0} (self : Rotator R W) (Sim : W → W → Type 0) (v v' : Bytes)
    (writer_blind : (s s' : W) (t : TargetSpec)
      → Sim s s'
      → ((self.writer.write s t v).1 ≡ (self.writer.write s' t v').1)
        × Sim (self.writer.write s t v).0 (self.writer.write s' t v').0)
    (prober_blind : (p : Provider) → self.prober p v ≡ self.prober p v')
    (blank_alike : is_nil (trim v) ≡ is_nil (trim v')) where
  write_targets_blind :
      (targets : List TargetSpec) (s s' : W)
      → Sim s s'
      → ((write_targets self.writer v targets s).1 ≡ (write_targets self.writer v' targets s').1)
        × Sim (write_targets self.writer v targets s).0 (write_targets self.writer v' targets s').0
  unfolding write_targets
  write_targets_blind [] s s' h = (refl, h)
  write_targets_blind (t ∷ ts) s s' h =
      let (result, next) = writer_blind s s' t h in
      let (later, last) = write_targets_blind ts _ _ next in (cc (result, later), last)

  admit_blind :
      (r : R) (m : Metrics) (s s' : W) (name : Bytes) (req : RotateRequest)
      → admit self (world r m s) name (with_value req v)
        ≡ admit self (world r m s') name (with_value req v')
  unfolding admit
  admit_blind r m s s' name req = ground (arith, blank_alike)

  probe_blind :
      (r : R) (m : Metrics) (s s' : W) (key : ApiKey) (req : RotateRequest)
      → ((probe_key self (world r m s) key (with_value req v)).1
          ≡ (probe_key self (world r m s') key (with_value req v')).1)
        × ((probe_key self (world r m s) key (with_value req v)).0.repo
            ≡ (probe_key self (world r m s') key (with_value req v')).0.repo)
        × ((probe_key self (world r m s) key (with_value req v)).0.metrics
            ≡ (probe_key self (world r m s') key (with_value req v')).0.metrics)
        × ((probe_key self (world r m s) key (with_value req v)).0.store ≡ s)
        × ((probe_key self (world r m s') key (with_value req v')).0.store ≡ s')
  unfolding probe_key
  probe_blind r m s s' key req = ground (arith, prober_blind key.spec.provider)

  saved_blind :
      (r : R) (name : Bytes) (key : ApiKey) (req : RotateRequest) (p : ProbeOutcome)
      (now : Timestamp) (os : List TargetOutcome)
      → saved_as self r name key (with_value req v) p now os
        ≡ saved_as self r name key (with_value req v') p now os
  unfolding record_outcomes
  saved_blind r name key req p now os = refl

  conclude-store :
      (w : World R W) (name : Bytes) (key : ApiKey) (req : RotateRequest) (p : ProbeOutcome)
      (now : Timestamp) (t : W) (os : List TargetOutcome)
      → (conclude self w name key req p now t os).0.store ≡ t
  unfolding conclude
  conclude-store w name key req p now t os = ground arith

  conclude_blind :
      (r : R) (m : Metrics) (s s' t t' : W) (name : Bytes) (key : ApiKey) (req : RotateRequest)
      (p : ProbeOutcome) (now : Timestamp) (os : List TargetOutcome)
      → Sim t t'
      → Alike Sim
          (conclude self (world r m s) name key (with_value req v) p now t os)
          (conclude self (world r m s') name key (with_value req v') p now t' os)
  conclude_blind r m s s' t t' name key req p now os h =
      let same = saved_blind r name key req p now os in
      (
        unfold conclude in ground (arith, same),
        unfold conclude in ground (arith, same),
        unfold conclude in ground (arith, same),
        subst₂ Sim (sym (conclude-store (world r m s) name key (with_value req v) p now t os))
            (sym (conclude-store (world r m s') name key (with_value req v') p now t' os)) h,
      )

  submit_blind :
      (r : R) (m : Metrics) (s s' : W) (name : Bytes) (key : ApiKey) (req : RotateRequest)
      (p : ProbeOutcome) (now : Timestamp)
      → Sim s s'
      → Alike Sim
          (submit self (world r m s) name key (with_value req v) p now)
          (submit self (world r m s') name key (with_value req v') p now)
  unfolding submit
  submit_blind r m s s' name key req p now h =
      let (same, last) = write_targets_blind key.spec.targets s s' h in
      subst
        (λ os. Alike Sim (submit self (world r m s) name key (with_value req v) p now) (
          conclude self (world r m s') name key (with_value req v') p now
            (write_targets self.writer v' key.spec.targets s').0 os))
        same (conclude_blind r m s s' _ _ name key req p now _ last)

  submit_after :
      (r : R) (m : Metrics) (s s' : W) (name : Bytes) (key : ApiKey) (req : RotateRequest)
      (p : ProbeOutcome) (now : Timestamp)
      → Sim s s'
      → Alike Sim
          (submit self
            (probe_key self (world r m s) key (with_value req v)).0
            name
            key
            (with_value req v)
            p
            now)
          (submit self
            (probe_key self (world r m s') key (with_value req v')).0
            name
            key
            (with_value req v')
            p
            now)
  submit_after r m s s' name key req p now h =
      let (_, repos, counts, store, store') = probe_blind r m s s' key req in
      let w = (probe_key self (world r m s) key (with_value req v)).0 in
      let w' = (probe_key self (world r m s') key (with_value req v')).0 in
      let same : world w.repo w.metrics w'.store ≡ w' =
        λ i. record { repo = repos i; store = w'.store; metrics = counts i } in
      subst
        (λ x.
          Alike Sim (submit self w name key (with_value req v) p now)
            (submit self x name key (with_value req v') p now))
        same
        (submit_blind w.repo w.metrics w.store w'.store name key req p now
          (subst₂ Sim (sym store) (sym store') h))

  -- Two requests that differ in the key's value only, over stores that cannot be told apart from
  -- outside: if the writer's answers and the prober's are the same for both values, and both or
  -- neither are blank, then the result, the repository with its audit events, and the metrics are
  -- the same, and the stores cannot be told apart.
  pub rotate_blind :
      (r : R) (m : Metrics) (s s' : W) (name : Bytes) (req : RotateRequest) (now : Timestamp)
      → Sim s s'
      → Alike Sim
          (rotate self (world r m s) name (with_value req v) now)
          (rotate self (world r m s') name (with_value req v') now)
  rotate_blind r m s s' name req now h =
      let a = with_value req v in
      let b = with_value req v' in
      elim (Result-cases (admit self (world r m s) name a)) [
        | inr (e, q) ↦
            rw
              (
                rotate_refused self (world r m s) name a now q,
                rotate_refused self (world r m s') name b now
                    (sym (admit_blind r m s s' name req) ∙ q),
              )
              (refl, refl, refl, h)
        | inl (key, q) ↦
            let q2 = sym (admit_blind r m s s' name req) ∙ q in
            let (result, repos, counts, store, store') = probe_blind r m s s' key req in
            elim (Result-cases (probe_key self (world r m s) key a).1) [
              | inr (e, p) ↦
                  rw
                    (
                      rotate_unprobed self (world r m s) name a now q p,
                      rotate_unprobed self (world r m s') name b now q2 (sym result ∙ p),
                    )
                    (
                      refl,
                      repos,
                      ap (λ c. Metrics.rotation c (codes "rejected")) counts,
                      subst₂ Sim (sym store) (sym store') h,
                    )
              | inl (outcome, p) ↦
                  rw
                    (
                      rotate_submitted self (world r m s) name a now q p,
                      rotate_submitted self (world r m s') name b now q2 (sym result ∙ p),
                    )
                    (counted-Alike Sim _ _ (submit_after r m s s' name key req outcome now h))
            ]
      ]
