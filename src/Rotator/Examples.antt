-- ===== src/Rotator/Examples.antt =====
-- Rotations over the in-memory repository, run on a key with two targets.
use you_spin_me.Prelude.{
  ◌≡◌, ◌⊎◌, inl, inr, Bool-cases, bytes_eq, subst, arith, unwrap_or, refl, false, none, some, [],
  ◌∷◌, ok, err, codes, pos, trim,
}
use you_spin_me.Crd.{
  ApiKey, ApiKeySpec, TargetSpec, Actor, target_reference, reference, empty_status, ApiKeyStatus,
}
use you_spin_me.Crd
use you_spin_me.Glob.{allow_all}
use you_spin_me.Metrics.{no_metrics}
use you_spin_me.Validation.Examples.{validation, plain_crates, two_targets}
use you_spin_me.Providers.{rejected, Prober, static_prober, no_probe}
use you_spin_me.Targets.{MemoryWriter, memory_writer, write_memory, no_store}
use you_spin_me.Repo.Memory.{
  MemoryRepository, get, update_status, record_event, insert_entry, lookup, new,
}
use you_spin_me.Rotation
use you_spin_me.Rotation.{
  RotateRequest, RotateOutcome, RotateError, probe_failed, TargetOutcome, skipped, apply_rotation,
}
use you_spin_me.Rotator.Safety.{IsStatus, rotate-err-store}
use you_spin_me.Rotator.Records.{over_memory, Records}
use you_spin_me.Rotator.Blind.{world}
use you_spin_me.Rotator.Every.{Every}
use you_spin_me.Crd.{ApiKeyStatus}
use you_spin_me.Rotation.{record_rotation}
use you_spin_me.Rotator.{
  Rotator, World, rotate, rotate_inner, admit, probe_key, submit, conclude, write_targets,
  record_outcomes, put_entries, put_entry, failed_references,
}

-- To unfold it is to unfold all that a rotation runs.
unfoldable pub rotation : Unit {0}
unfolding validation rotate rotate_inner admit probe_key submit conclude write_targets
    record_outcomes put_entries put_entry apply_rotation get update_status lookup insert_entry
    record_event write_memory trim target_reference new failed_references static_prober no_probe
    you_spin_me.Targets.show
rotation = tt

abbrev pub key : ApiKey
key = record {
  metadata = record {
    name = some (codes "bot");
    namespace = none;
    generation = none;
    resource_version = none;
  };
  spec = two_targets;
  status = none;
}

abbrev pub request : RotateRequest
request = record {
  value = codes "s3cret";
  actor = record { sub = codes "u1"; name = [] };
  manual_expires_at = none;
  skip_verification = false;
}

-- One of the two targets fails.
abbrev pub store : MemoryWriter
store = record { writes = []; failing = (codes "openbao/secret/b#token", codes "sealed") ∷ [] }

abbrev pub repo : MemoryRepository
repo = record { keys = (codes "bot", key) ∷ []; events = [] }

abbrev pub before : World MemoryRepository MemoryWriter
before = world repo no_metrics store

abbrev pub accepts : Prober
accepts = static_prober (ok (some (record { expires_at = some (pos 9); identity = none })))

abbrev refuses : Prober
refuses = static_prober (err (rejected (codes "bad key")))

abbrev pub rotator : Prober → Rotator MemoryRepository MemoryWriter
rotator prober = over_memory plain_crates memory_writer prober allow_all

-- One target written, one failed: not completed.
abbrev pub outcome : RotateOutcome
outcome = record {
  probe = Rotation.checked (record { expires_at = some (pos 9); identity = none });
  targets =
      record { reference = codes "openbao/secret/a#token"; error = none }
      ∷ record { reference = codes "openbao/secret/b#token"; error = some (codes "sealed") }
      ∷ [];
  completed = false;
  expiry_mismatch = false;
}

pub rotated : (rotate (rotator accepts) before (codes "bot") request (pos 7)).1 ≡ ok outcome
unfolding rotation
rotated = refl

refused :
    (rotate (rotator refuses) before (codes "bot") request (pos 7)).1
    ≡ err (probe_failed (rejected (codes "bad key")))
unfolding rotation
refused = refl

rotate-err-store_example :
    IsStatus (probe_failed (rejected (codes "bad key")))
    ⊎ ((rotate (rotator refuses) before (codes "bot") request (pos 7)).0.store ≡ store)
rotate-err-store_example =
    rotate-err-store (rotator refuses) before (codes "bot") request (pos 7)
      (probe_failed (rejected (codes "bad key"))) refused

-- The in-memory writer keeps lengths only, so that two keys of one length leave the same store.
pub writes_alike :
    (s s' : MemoryWriter) (t : TargetSpec)
    → s ≡ s'
    → ((write_memory s t (codes "s3cret")).1 ≡ (write_memory s' t (codes "s3cres")).1)
      × ((write_memory s t (codes "s3cret")).0 ≡ (write_memory s' t (codes "s3cres")).0)
unfolding write_memory
writes_alike s s' t h = rw h (refl, refl)

pub probes_alike :
    (p : Crd.Provider)
    → (rotator accepts).prober p (codes "s3cret") ≡ (rotator accepts).prober p (codes "s3cres")
unfolding static_prober
probes_alike p = refl

-- What holds of an empty status holds of every status here.
pub repo-Every : (Q : ApiKeyStatus → Type 0) → Q empty_status → Every (λ _. Q) repo
unfolding rotation
repo-Every Q q name found e = elim (Bool-cases (bytes_eq (codes "bot") name)) [
  | inl same ↦
      let is_key : key ≡ found = ground arith in
      subst (λ (k : ApiKey). Q (unwrap_or k.status empty_status)) is_key q
  | inr other ↦ absurd (ground arith)
]
