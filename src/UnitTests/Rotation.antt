-- ===== src/UnitTests/Rotation.antt =====
-- The tests of src/rotation.rs that record a rotation or apply one.
use you_spin_me.Prelude.{
  ℕ, ◌≡◌, refl, none, some, List, [], ◌∷◌, ◌++◌, map, length, Result, ok, err, Bytes, codes,
  bytes_eq,
}
use you_spin_me.Time.{Timestamp}
use you_spin_me.Time.Examples.{plain}
use you_spin_me.Crd.{
  ApiKey, ApiKeyStatus, Actor, ProbeStatus, rotated, manual, probe, empty_status, history_limit,
  key_name,
}
use you_spin_me.Repo.{not_found}
use you_spin_me.Repo.Memory.{
  MemoryRepository, memory, new, update_status, record_event, insert_entry, lookup,
}
use you_spin_me.Rotation.{
  apply_rotation, RecordError, future_date, expiry_before_rotation, repo, record_rotation,
}
use you_spin_me.UnitTests.Fixtures.{ts, default_spec, new_key}

abbrev user : Bytes → Actor
user sub = record { sub = sub; name = sub ++ codes " (display)" }

abbrev stored : MemoryRepository
stored = new (new_key (codes "k") default_spec ∷ [])

abbrev now : Timestamp
now = ts 9 25 12

-- One rotation by alice for each of these days of September, from the first on.
abbrev recorded_on : List ℕ → MemoryRepository → MemoryRepository
recorded_on [] r = r
recorded_on (day ∷ days) r =
    recorded_on days
      (record_rotation plain memory r (codes "k") (user (codes "alice")) (ts 9 day 0) none now).0

abbrev twelve : MemoryRepository
twelve = recorded_on (1 ∷ 2 ∷ 3 ∷ 4 ∷ 5 ∷ 6 ∷ 7 ∷ 8 ∷ 9 ∷ 10 ∷ 11 ∷ 12 ∷ []) stored

-- And one by bob.
abbrev last : MemoryRepository × Result RecordError ApiKey
last =
    record_rotation plain memory twelve (codes "k") (user (codes "bob")) (ts 9 20 0)
      (some (ts 12 1 0)) now

abbrev RecordUpdatesStatusAndHistory : Type 0
RecordUpdatesStatusAndHistory =
    (key : ApiKey) × (s : ApiKeyStatus) × (last.1 ≡ ok key)
    × (key.status ≡ some s)
    × (s.rotated_by ≡ some (user (codes "bob")))
    × (s.expires_at_source ≡ some manual)
    × (s.expires_at ≡ some (ts 12 1 0))
    × (length s.history ≡ history_limit)
    × (map (λ e. e.by.sub) s.history
        ≡ codes "bob" ∷ map (λ (n : ℕ). codes "alice") (1 ∷ 2 ∷ 3 ∷ 4 ∷ 5 ∷ 6 ∷ 7 ∷ 8 ∷ 9 ∷ []))
    × (map (λ e. e.1.reason) last.0.events
        ≡ map (λ (n : ℕ). codes "Recorded")
            (1 ∷ 2 ∷ 3 ∷ 4 ∷ 5 ∷ 6 ∷ 7 ∷ 8 ∷ 9 ∷ 10 ∷ 11 ∷ 12 ∷ 13 ∷ []))

record_updates_status_and_history : RecordUpdatesStatusAndHistory
unfolding key_name record_rotation apply_rotation new update_status record_event insert_entry lookup
    bytes_eq
record_updates_status_and_history = (_, _, refl, refl, refl, refl, refl, refl, refl, refl)

abbrev RecordRejectsBadDates : Type 0
RecordRejectsBadDates =
    ((record_rotation plain memory stored (codes "k") (user (codes "a")) (ts 10 1 0) none now).1
      ≡ err future_date)
    × ((record_rotation plain memory stored (codes "k") (user (codes "a")) (ts 9 1 0)
          (some (ts 8 1 0)) now).1
        ≡ err expiry_before_rotation)
    × ((record_rotation plain memory stored (codes "missing") (user (codes "a")) now none now).1
        ≡ err (repo (not_found (codes "missing"))))

record_rejects_bad_dates : RecordRejectsBadDates
unfolding key_name record_rotation new update_status insert_entry lookup bytes_eq
record_rejects_bad_dates = (refl, refl, refl)

abbrev probed : ProbeStatus
probed = record { at = ts 9 1 0; identity = some (codes "me"); expires_at = some (ts 11 1 0) }

abbrev rotated_status : ApiKeyStatus
rotated_status =
    apply_rotation empty_status (ts 9 1 0) (user (codes "a")) rotated (some (ts 12 1 0))
      (some probed)

abbrev ProbeExpiryWinsOverManual : Type 0
ProbeExpiryWinsOverManual =
    (rotated_status.expires_at_source ≡ some probe)
    × (rotated_status.expires_at ≡ some (ts 11 1 0))
    × (rotated_status.manual_expires_at ≡ some (ts 12 1 0))

probe_expiry_wins_over_manual : ProbeExpiryWinsOverManual
unfolding apply_rotation
probe_expiry_wins_over_manual = (refl, refl, refl)
