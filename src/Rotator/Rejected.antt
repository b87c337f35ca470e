-- ===== src/Rotator/Rejected.antt =====
-- What is left of a rotation whose probe fails, over the in-memory repository.
use you_spin_me.Prelude.{◌≡◌, true, false, [], ◌∷◌, ◌++◌, err, ok, Bytes, codes}
use you_spin_me.Crd.{ApiKey, as_str, is_generic, key_name}
use you_spin_me.Glob.{PathAllowList}
use you_spin_me.Metrics
use you_spin_me.Providers.{ProbeError, Prober}
use you_spin_me.Targets.{TargetWriter}
use you_spin_me.Repo.{AuditEvent}
use you_spin_me.Repo.Memory.{MemoryRepository}
use you_spin_me.Rotation.{RotateRequest}
use you_spin_me.Rotator.Records.{over_memory}
use you_spin_me.Rotator.{Rotator, World, admit, probe_label}
use you_spin_me.Validation.{Crates}

module _ {W : Type 0} (crates : Crates) (writer : TargetWriter W) (prober : Prober)
    (allowed : PathAllowList) where
  abbrev self : Rotator MemoryRepository W
  self = over_memory crates writer prober allowed

  -- The request passes the checks and its probe is made and fails with `e`; from `w` to `after`, only
  -- an audit event of the key, a warning, and the two counts are added: no key and no target changes.
  pub record IsRejected (w after : World MemoryRepository W) (name : Bytes) (req : RotateRequest)
      (e : ProbeError) : Type 0 where
    pub key : ApiKey
    pub admitted : admit self w name req ≡ ok key
    pub asked :
        (req.skip_verification ≡ false)
        × (is_generic key.spec.provider ≡ false)
        × (prober key.spec.provider req.value ≡ err e)
    pub store : after.store ≡ w.store
    pub keys : after.repo.keys ≡ w.repo.keys
    pub event : AuditEvent
    pub noted : after.repo.events ≡ w.repo.events ++ (key_name key, event) ∷ []
    pub kind : (event.reason ≡ codes "RotationRejected") × (event.warning ≡ true)
    pub counted :
        after.metrics
        ≡ Metrics.rotation
            (Metrics.probe w.metrics (as_str key.spec.provider) (probe_label e))
            (codes "rejected")
