-- ===== src/Rotation.antt =====
-- Rotation bookkeeping (src/rotation.rs): recording a rotation by hand, and passing a new key
-- through to the secret stores. Both run over a repository, `rotate` also over a writer of targets
-- and the metrics: the `World`. `now` is what the clock reads where the source asks it.
pub mod Coherent
pub mod Recording
mod Examples
use you_spin_me.Prelude.{
  ℕ, ◌/◌, Bool, true, false, not, ◌&&◌, Option, none, some, List, [], ◌∷◌, ◌++◌, map, if◌then◌else◌,
  Result, ok, err, is_nil, is_some, and_then, map_option, unwrap_or, length, take, keep, any, all,
  Bytes, codes, bytes_eq, trim, join, decimal, ℤ, pos, negsuc, ltb_ℤ, ◌-ℤ◌, suc, ◌==◌,
}
use you_spin_me.Time.{Timestamp, Jiff}
use you_spin_me.Crd.{
  Provider, as_str, is_generic, ApiKey, ApiKeyStatus, Actor, label, HistoryKind, rotated, recorded,
  HistoryEntry, history_limit, ProbeStatus, ExpirySource, probe, manual, unset, TargetSpec,
  target_reference, TargetStatus, TargetResult, succeeded, failed,
}
use you_spin_me.Providers.{ProbeResult, ProbeError, rejected, unavailable, Prober}
use you_spin_me.Targets.{TargetError, TargetWriter}
use you_spin_me.Targets
use you_spin_me.Metrics
use you_spin_me.Metrics.{Metrics}
use you_spin_me.Repo.{Repository, RepoError, AuditEvent}
use you_spin_me.Validation.{Crates, validate}
use you_spin_me.Glob.{PathAllowList}

-- The expiry that counts, and where it comes from: the probed one if there is one.
abbrev pub effective : Option Timestamp → Option Timestamp → Option Timestamp × ExpirySource
effective (some p) manual_at = (some p, probe)
effective none (some m) = (some m, manual)
effective none none = (none, unset)

abbrev pub probed_expiry : Option ProbeStatus → Option Timestamp
probed_expiry p = and_then p (λ s. s.expires_at)

unfoldable pub apply_rotation :
    ApiKeyStatus
    → Timestamp
    → Actor
    → HistoryKind
    → Option Timestamp
    → Option ProbeStatus
    → ApiKeyStatus
apply_rotation status at by kind manual_expires_at probed =
    let (expires_at, source) = effective (probed_expiry probed) manual_expires_at in
    record status {
      last_rotated = some at;
      rotated_by = some by;
      manual_expires_at = manual_expires_at;
      expires_at = expires_at;
      expires_at_source = some source;
      probe = probed;
      history =
          take history_limit
            (record { at = at; by = by; kind = kind; expires_at = expires_at } ∷ status.history);
    }

pub data RecordError : Type 0 where
  future_date expiry_before_rotation : RecordError
  repo : RepoError → RecordError

pub before_rotation : Option Timestamp → Timestamp → Bool
before_rotation none rotated_at = false
before_rotation (some e) rotated_at = ltb_ℤ e rotated_at

record_note : Jiff → Actor → Timestamp → Option Timestamp → Bytes
record_note jiff actor rotated_at expires_at =
    label actor
    ++ (codes " recorded a rotation at "
        ++ (jiff.display rotated_at
            ++ (codes " ("
                ++ (elim expires_at [
                  | none ↦ codes "no expiry"
                  | some e ↦ codes "expires " ++ jiff.display e
                ]
                    ++ codes ")"))))

-- `record`, a rotation done outside the program.
unfoldable pub record_rotation :
    {R : Type 0}
    → Jiff
    → Repository R
    → R
    → Bytes
    → Actor
    → Timestamp
    → Option Timestamp
    → Timestamp
    → R × Result RecordError ApiKey
unfolding before_rotation record_note
record_rotation jiff repository r name actor rotated_at expires_at now =
    if ltb_ℤ now rotated_at
    then (r, err future_date)
    else if before_rotation expires_at rotated_at
    then (r, err expiry_before_rotation)
    else let (r', result) =
        repository.update_status r name
          (λ status. apply_rotation status rotated_at actor recorded expires_at none) in
      elim result [
        | err e ↦ (r', err (repo e))
        | ok updated ↦ (
          repository.record_event r' updated (record {
            reason = codes "Recorded";
            note = record_note jiff actor rotated_at expires_at;
            warning = false;
          }),
          ok updated,
        )
      ]

pub record RotateRequest : Type 0 where
  pub value : Bytes
  pub actor : Actor
  pub manual_expires_at : Option Timestamp
  pub skip_verification : Bool

pub data ProbeOutcome : Type 0 where
  not_supported skipped : ProbeOutcome
  checked : ProbeResult → ProbeOutcome

pub record TargetOutcome : Type 0 where
  pub reference : Bytes
  pub error : Option Bytes

pub record RotateOutcome : Type 0 where
  pub probe : ProbeOutcome
  pub targets : List TargetOutcome
  pub completed : Bool
  pub expiry_mismatch : Bool

pub data RotateError : Type 0 where
  not_found : Bytes → RotateError
  empty no_targets : RotateError
  invalid_spec : Bytes → RotateError
  probe_failed : ProbeError → RotateError
  status : RepoError → RotateError
