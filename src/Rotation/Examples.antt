-- ===== src/Rotation/Examples.antt =====
-- A rotation with a probed and a manual expiry.
use you_spin_me.Prelude.{
  ◌≡◌, ◌⊎◌, refl, none, some, [], ◌∷◌, codes, pos, ok, err, Bytes, bytes_eq, if◌then◌else◌,
}
use you_spin_me.Crd.{empty_status, rotated, probe, Actor, ProbeStatus}
use you_spin_me.Time.Examples.{plain}
use you_spin_me.Validation.Examples.{two_targets}
use you_spin_me.Crd.{ApiKey}
use you_spin_me.Repo.Memory.{MemoryRepository, memory, get, update_status, lookup}
use you_spin_me.Repo.Memory.Laws.{with_status}
use you_spin_me.Rotation.Recording.{IsDated, recording, record_rotation-recorded}
use you_spin_me.Rotation.{apply_rotation, RecordError, expiry_before_rotation, record_rotation}

abbrev actor : Actor
actor = record { sub = codes "u1"; name = codes "Ada" }

abbrev probed : ProbeStatus
probed = record { at = pos 5; identity = none; expires_at = some (pos 70) }

-- The probed expiry counts.
apply_rotation_tests :
    ((apply_rotation empty_status (pos 5) actor rotated (some (pos 90)) (some probed)).expires_at
      ≡ some (pos 70))
    × ((apply_rotation empty_status
          (pos 5)
          actor
          rotated
          (some (pos 90))
          (some probed)).expires_at_source
        ≡ some probe)
unfolding apply_rotation
apply_rotation_tests = (refl, refl)

abbrev key : ApiKey
key = record {
  metadata = record {
    name = some (codes "bot");
    namespace = none;
    generation = none;
    resource_version = none;
  };
  spec = two_targets;
  status = none;
}

abbrev stored : MemoryRepository
stored = record { keys = (codes "bot", key) ∷ []; events = [] }

-- Recorded a day before the expiry, and after it.
record_rotation_tests :
    ((record_rotation plain memory stored (codes "bot") actor (pos 5) (some (pos 90)) (pos 7)).1
      ≡ ok (with_status key (recording (pos 5) actor (some (pos 90)))))
    × (record_rotation plain memory stored (codes "bot") actor (pos 5) (some (pos 4)) (pos 7)
        ≡ (stored, err expiry_before_rotation))
unfolding record_rotation update_status lookup bytes_eq
record_rotation_tests = (refl, refl)

record_rotation-recorded_example :
    (IsDated (pos 5) (some (pos 90)) (pos 7)
      × ((k : ApiKey) × (get stored (codes "bot") ≡ some k)
          × ((record_rotation plain memory stored
                (codes "bot")
                actor
                (pos 5)
                (some (pos 90))
                (pos 7)).1
              ≡ ok (with_status k (recording (pos 5) actor (some (pos 90)))))
          × ((other : Bytes)
              → get
                  (record_rotation plain memory stored
                    (codes "bot")
                    actor
                    (pos 5)
                    (some (pos 90))
                    (pos 7)).0
                  other
                ≡ (if bytes_eq (codes "bot") other
                    then some (with_status k (recording (pos 5) actor (some (pos 90))))
                    else get stored other))))
    ⊎ ((e : RecordError) × (IsDated (pos 5) (some (pos 90)) (pos 7)
          → get stored (codes "bot") ≡ none)
        × (record_rotation plain memory stored (codes "bot") actor (pos 5) (some (pos 90)) (pos 7)
            ≡ (stored, err e)))
record_rotation-recorded_example =
    record_rotation-recorded plain stored (codes "bot") actor (pos 5) (some (pos 90)) (pos 7)
