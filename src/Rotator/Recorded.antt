-- ===== src/Rotator/Recorded.antt =====
-- What the status of a key tells of a rotation, completed or not.
use you_spin_me.Prelude.{◌≡◌, refl, sym, Bool, true, false, Option, some, List, Bytes, map_option}
use you_spin_me.Time.{Timestamp}
use you_spin_me.Crd.{ApiKeyStatus, ProbeStatus, rotated}
use you_spin_me.Rotation.{apply_rotation, RotateRequest, ProbeOutcome, TargetOutcome, RotateOutcome}
use you_spin_me.Rotation.Coherent.{IsCoherent, apply_rotation-IsCoherent}
use you_spin_me.Rotator.{all_written, entry_of, record_outcomes, probe_status}
use you_spin_me.Rotator.Entries.{find_entry, last_outcome, references, entries_of_outcomes}

-- What a status keeps when its rotation did not complete.
abbrev pub IsUnrotated : ApiKeyStatus → ApiKeyStatus → Type 0
IsUnrotated old s =
    (s.last_rotated ≡ old.last_rotated)
    × (s.expires_at ≡ old.expires_at)
    × (s.history ≡ old.history)

abbrev pub IsRotated : Timestamp → RotateRequest → ApiKeyStatus → Type 0
IsRotated now req s =
    (s.last_rotated ≡ some now)
    × (s.rotated_by ≡ some req.actor)
    × (s.manual_expires_at ≡ req.manual_expires_at)
    × IsCoherent s

applied-IsRotated :
    (now : Timestamp) (req : RotateRequest) (probed : Option ProbeStatus) (s : ApiKeyStatus)
    → IsRotated now req (apply_rotation s now req.actor rotated req.manual_expires_at probed)
unfolding apply_rotation
applied-IsRotated now req probed s = (
  refl,
  refl,
  refl,
  apply_rotation-IsCoherent s now req.actor rotated req.manual_expires_at probed,
)

record_outcomes_completed :
    (refs : List Bytes) (os : List TargetOutcome) (now : Timestamp) (req : RotateRequest)
    (probed : Option ProbeStatus) (s : ApiKeyStatus)
    → IsRotated now req (record_outcomes refs os now req probed true s)
unfolding record_outcomes
record_outcomes_completed refs os now req probed s = applied-IsRotated now req probed _

record_outcomes_incomplete :
    (refs : List Bytes) (os : List TargetOutcome) (now : Timestamp) (req : RotateRequest)
    (probed : Option ProbeStatus) (s : ApiKeyStatus)
    → IsUnrotated s (record_outcomes refs os now req probed false s)
unfolding record_outcomes
record_outcomes_incomplete refs os now req probed s = (refl, refl, refl)

-- The status tells of the outcomes, and of a rotation only if all targets were written.
pub record IsRecorded (now : Timestamp) (req : RotateRequest) (o : RotateOutcome)
    (old s : ApiKeyStatus) : Type 0 where
  pub entries :
      (r : Bytes) → find_entry r s.targets ≡ map_option (entry_of now) (last_outcome r o.targets)
  pub all_or_not : o.completed ≡ all_written o.targets
  pub rotated : o.completed ≡ true → IsRotated now req s
  pub unrotated : o.completed ≡ false → IsUnrotated old s

pub outcomes-IsRecorded :
    (now : Timestamp) (req : RotateRequest) (p : ProbeOutcome) (os : List TargetOutcome)
    (clash : Bool) (old : ApiKeyStatus) (c : Bool)
    → all_written os ≡ c
    → IsRecorded now req
        (record { probe = p; targets = os; completed = c; expiry_mismatch = clash })
        old
        (record_outcomes (references os) os now req (probe_status now p) c old)
outcomes-IsRecorded now req p os clash old c e = record {
  entries = entries_of_outcomes os now req (probe_status now p) c old;
  all_or_not = sym e;
  rotated = λ h. rw h (record_outcomes_completed _ os now req (probe_status now p) old);
  unrotated = λ h. rw h (record_outcomes_incomplete _ os now req (probe_status now p) old);
}
