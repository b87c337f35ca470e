-- ===== src/Rotator.antt =====
-- `Rotator` of src/rotation.rs: a new key is checked, probed, written to every target, and the
-- result recorded. The steps of `rotate_inner` are functions of their own, in the source's order.
mod Entry
pub mod Entries
pub mod Safety
pub mod Writes
pub mod Recorded
pub mod Records
pub mod Blind
pub mod Returns
pub mod Rejected
pub mod Kept
pub mod Distinct
pub mod Every
pub mod Reachable
pub mod Examples
unfoldable pub use Entry.*
use you_spin_me.Prelude.{
  ℕ, ◌/◌, Bool, true, false, not, ◌&&◌, Option, none, some, List, [], ◌∷◌, ◌++◌, map, if◌then◌else◌,
  Result, ok, err, is_nil, is_some, map_option, unwrap_or, length, keep, any, all, Bytes, codes,
  bytes_eq, trim, join, decimal, ℤ, pos, negsuc, ◌-ℤ◌, suc, ◌==◌, pos_part, neg_part,
}
use you_spin_me.Time.{Timestamp, Jiff}
use you_spin_me.Crd.{
  Provider, as_str, is_generic, ApiKey, ApiKeyStatus, label, rotated, ProbeStatus, TargetSpec,
  target_reference, TargetStatus, TargetResult, succeeded, failed,
}
use you_spin_me.Providers.{ProbeResult, ProbeError, rejected, unavailable, Prober}
use you_spin_me.Targets
use you_spin_me.Targets.{TargetWriter}
use you_spin_me.Metrics
use you_spin_me.Metrics.{Metrics}
use you_spin_me.Repo.{Repository, AuditEvent, RepoError}
use you_spin_me.Validation.{Crates, validate}
use you_spin_me.Glob.{PathAllowList}
use you_spin_me.Rotation.{
  apply_rotation, probed_expiry, RotateRequest, ProbeOutcome, not_supported, skipped, checked,
  TargetOutcome, RotateOutcome, RotateError, not_found, empty, no_targets, invalid_spec,
  probe_failed, status,
}

-- The struct: what a rotation is run with. `crates` are the libraries that it calls.
pub record Rotator (R W : Type 0) : Type 0 where
  pub crates : Crates
  pub repository : Repository R
  pub writer : TargetWriter W
  pub prober : Prober
  pub allowed : PathAllowList

-- What a rotation changes.
pub record World (R W : Type 0) : Type 0 where
  pub repo : R
  pub store : W
  pub metrics : Metrics

-- The references of the failed targets.
unfoldable pub failed_references : List TargetOutcome → List Bytes
failed_references [] = []
failed_references (t ∷ ts) =
    if is_some t.error then t.reference ∷ failed_references ts else failed_references ts

outcome_event : RotateRequest → List TargetOutcome → Bool → AuditEvent
outcome_event req outcomes completed =
    if completed
    then record {
      reason = codes "Rotated";
      note =
          label req.actor
          ++ (codes " rotated the key ("
              ++ (decimal (length outcomes) ++ codes " targets written)"));
      warning = false;
    }
    else record {
      reason = codes "RotationFailed";
      note =
          label req.actor
          ++ (codes " submitted a key; failed targets: "
              ++ join (codes ", ") (failed_references outcomes));
      warning = true;
    }

abbrev pub all_written : List TargetOutcome → Bool
all_written = all (λ t. not (is_some t.error))

module _ {W : Type 0} (writer : TargetWriter W) where
  -- The loop over the targets: every one is tried, whatever happened to those before.
  unfoldable pub write_targets : Bytes → List TargetSpec → W → W × List TargetOutcome
  write_targets value [] store = (store, [])
  write_targets value (target ∷ targets) store =
      let (store', result) = writer.write store target value in
      let error : Option Bytes = elim result [ ok _ ↦ none | err e ↦ some (Targets.show e) ] in
      let (last, outcomes) = write_targets value targets store' in
      (last, record { reference = target_reference target; error = error } ∷ outcomes)

-- What `rotate` counts.
abbrev pub result_label : Result RotateError RotateOutcome → Bytes
result_label (ok o) =
    if o.completed
    then codes "ok"
    else if all (λ t. is_some t.error) o.targets
    then codes "failed"
    else codes "partial"
result_label (err e) = codes "rejected"

module _ {R W : Type 0} (self : Rotator R W) where
  -- The checks before anything is asked or written.
  unfoldable pub admit : World R W → Bytes → RotateRequest → Result RotateError ApiKey
  admit w name req = elim (self.repository.get w.repo name) [
    | none ↦ err (not_found name)
    | some key ↦
        if is_nil (trim req.value)
        then err empty
        else if is_nil key.spec.targets
        then err no_targets
        else let problems = validate self.crates key.spec self.allowed in
          if not (is_nil problems) then err (invalid_spec (join (codes "; ") problems)) else ok key
  ]

  unfoldable pub probe_key :
      World R W → ApiKey → RotateRequest → World R W × Result RotateError ProbeOutcome
  probe_key w key req =
      let provider = key.spec.provider in
      if req.skip_verification
      then (w, ok skipped)
      else if is_generic provider
      then (w, ok not_supported)
      else elim (self.prober provider req.value) [
        | ok (some result) ↦ (
          record w { metrics = Metrics.probe w.metrics (as_str provider) (codes "ok") },
          ok (checked result),
        )
        | ok none ↦ (w, ok not_supported)
        | err e ↦ (
          record w {
            repo = self.repository.record_event w.repo key (record {
              reason = codes "RotationRejected";
              note = label req.actor ++ (codes ": " ++ show_probe_error e);
              warning = true;
            });
            metrics = Metrics.probe w.metrics (as_str provider) (probe_label e);
          },
          err (probe_failed e),
        )
      ]

  -- The writes, and the status update that records them.
  abbrev pub written : World R W → ApiKey → RotateRequest → W × List TargetOutcome
  written w key req = write_targets self.writer req.value key.spec.targets w.store

  abbrev pub saved_as :
      R
      → Bytes
      → ApiKey
      → RotateRequest
      → ProbeOutcome
      → Timestamp
      → List TargetOutcome
      → R × Result RepoError ApiKey
  saved_as r name key req probe now outcomes = self.repository.update_status r name (
      record_outcomes (map target_reference key.spec.targets) outcomes now req
        (probe_status now probe) (all_written outcomes))

  abbrev pub saved :
      World R W
      → Bytes
      → ApiKey
      → RotateRequest
      → ProbeOutcome
      → Timestamp
      → R × Result RepoError ApiKey
  saved w name key req probe now = saved_as w.repo name key req probe now (written w key req).1

  -- What follows the writes: recording the outcomes, and the audit event.
  unfoldable pub conclude :
      World R W
      → Bytes
      → ApiKey
      → RotateRequest
      → ProbeOutcome
      → Timestamp
      → W
      → List TargetOutcome
      → World R W × Result RotateError RotateOutcome
  unfolding outcome_event
  conclude w name key req probe now store outcomes =
      let completed = all_written outcomes in
      let (repo, result) = saved_as w.repo name key req probe now outcomes in
      elim result [
        | err e ↦ (record w { repo = repo; store = store }, err (status e))
        | ok updated ↦ (
          record w {
            repo = self.repository.record_event repo updated (outcome_event req outcomes completed);
            store = store;
          },
          ok (record {
            probe = probe;
            targets = outcomes;
            completed = completed;
            expiry_mismatch =
                mismatch self.crates.jiff (probed_expiry (probe_status now probe))
                  req.manual_expires_at;
          }),
        )
      ]

  unfoldable pub submit :
      World R W
      → Bytes
      → ApiKey
      → RotateRequest
      → ProbeOutcome
      → Timestamp
      → World R W × Result RotateError RotateOutcome
  unfolding conclude
  submit w name key req probe now =
      let (store, outcomes) = written w key req in conclude w name key req probe now store outcomes

  unfoldable pub rotate_inner :
      World R W → Bytes → RotateRequest → Timestamp → World R W × Result RotateError RotateOutcome
  rotate_inner w name req now = elim (admit w name req) [
    | err e ↦ (w, err e)
    | ok key ↦
        let (w', probed) = probe_key w key req in
        elim probed [ err e ↦ (w', err e) | ok probe ↦ submit w' name key req probe now ]
  ]

  unfoldable pub rotate :
      World R W → Bytes → RotateRequest → Timestamp → World R W × Result RotateError RotateOutcome
  rotate w name req now =
      let (w', result) = rotate_inner w name req now in
      (record w' { metrics = Metrics.rotation w'.metrics (result_label result) }, result)
