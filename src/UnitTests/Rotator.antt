-- ===== src/UnitTests/Rotator.antt =====
-- The tests of src/rotation.rs that rotate a key.
use you_spin_me.Prelude.{
  ◌≡◌, refl, true, false, none, some, List, [], ◌∷◌, map, Result, ok, err, Bytes, codes,
}
use you_spin_me.Time.{Timestamp}
use you_spin_me.Crd
use you_spin_me.Crd.{
  ApiKey, ApiKeyStatus, Actor, Provider, generic, github, succeeded, failed, probe, key_name,
}
use you_spin_me.Metrics.{no_metrics}
use you_spin_me.Providers.{Prober, rejected, no_probe, static_prober}
use you_spin_me.Repo.Memory
use you_spin_me.Repo.Memory.{MemoryRepository}
use you_spin_me.Rotation.{
  RotateRequest, RotateOutcome, RotateError, not_supported, skipped, not_found, empty, no_targets,
  invalid_spec, probe_failed,
}
use you_spin_me.Rotator.{World, rotate}
use you_spin_me.Rotator.Examples.{rotation, rotator}
use you_spin_me.Targets.{MemoryWriter, fail}
use you_spin_me.Views.{contains_text}
use you_spin_me.UnitTests.Fixtures.{ts, default_spec, new_key, target_at}

abbrev fixture : Provider → World MemoryRepository MemoryWriter
fixture provider = record {
  repo = Memory.new (
      new_key (codes "k") (record default_spec {
        provider = provider;
        targets =
            target_at (codes "secret") (codes "a") (codes "token")
            ∷ target_at (codes "secret") (codes "b") (codes "token")
            ∷ [];
      })
      ∷ []);
  store = record { writes = []; failing = [] };
  metrics = no_metrics;
}

abbrev request : Bytes → RotateRequest
request value = record {
  value = value;
  actor = record { sub = codes "u-alice"; name = codes "alice" };
  manual_expires_at = none;
  skip_verification = false;
}

abbrev now : Timestamp
now = ts 9 25 12

abbrev Run : Type 0
Run = World MemoryRepository MemoryWriter × Result RotateError RotateOutcome

abbrev reasons : World MemoryRepository MemoryWriter → List Bytes
reasons w = map (λ e. e.1.reason) w.repo.events

-- The run returned this outcome, and left the key "k" with this status.
abbrev Returns : Run → RotateOutcome → ApiKeyStatus → Type 0
Returns run o s =
    (run.1 ≡ ok o)
    × ((key : ApiKey) × (Memory.get run.0.repo (codes "k") ≡ some key) × (key.status ≡ some s))

abbrev writing : Run
writing = rotate (rotator no_probe) (fixture generic) (codes "k") (request (codes "new-key")) now

abbrev RotationWritesAllTargetsAndRecords : Type 0
RotationWritesAllTargetsAndRecords =
    (o : RotateOutcome) × (s : ApiKeyStatus) × Returns writing o s
    × (o.completed ≡ true)
    × (o.probe ≡ not_supported)
    × (writing.0.store.writes
        ≡ (codes "openbao/secret/a#token", 7) ∷ (codes "openbao/secret/b#token", 7) ∷ [])
    × (s.rotated_by ≡ some (record { sub = codes "u-alice"; name = codes "alice" }))
    × (map (λ t. t.result) s.targets ≡ succeeded ∷ succeeded ∷ [])
    × (map (λ e. e.kind) s.history ≡ Crd.rotated ∷ [])
    × (reasons writing.0 ≡ codes "Rotated" ∷ [])

rotation_writes_all_targets_and_records : RotationWritesAllTargetsAndRecords
unfolding key_name rotation
rotation_writes_all_targets_and_records =
    (_, _, (refl, (_, refl, refl)), refl, refl, refl, refl, refl, refl, refl)

abbrev failing : World MemoryRepository MemoryWriter
failing = record (fixture generic) {
  store =
      fail (record { writes = []; failing = [] }) (codes "openbao/secret/b#token")
        (codes "OpenBao write returned 403: permission denied");
}

abbrev partial : Run
partial = rotate (rotator no_probe) failing (codes "k") (request (codes "new-key")) now

abbrev PartialFailureDoesNotMarkRotated : Type 0
PartialFailureDoesNotMarkRotated =
    (o : RotateOutcome) × (s : ApiKeyStatus) × (message : Bytes) × Returns partial o s
    × (o.completed ≡ false)
    × (map (λ t. t.error) o.targets ≡ none ∷ some message ∷ [])
    × (contains_text message (codes "403") ≡ true)
    × (s.last_rotated ≡ none)
    × (map (λ t. t.result) s.targets ≡ succeeded ∷ failed ∷ [])
    × (reasons partial.0 ≡ codes "RotationFailed" ∷ [])
    × (map (λ e. e.1.warning) partial.0.repo.events ≡ true ∷ [])

partial_failure_does_not_mark_rotated : PartialFailureDoesNotMarkRotated
unfolding key_name rotation fail contains_text
partial_failure_does_not_mark_rotated =
    (_, _, _, (refl, (_, refl, refl)), refl, refl, refl, refl, refl, refl, refl)

abbrev refuses : Prober
refuses = static_prober (err (rejected (codes "401 Bad credentials")))

abbrev rejection : Run
rejection = rotate (rotator refuses) (fixture github) (codes "k") (request (codes "bad")) now

-- Skipping verification, in what that run left.
abbrev skipping : Run
skipping =
    rotate (rotator refuses) rejection.0 (codes "k")
      (record (request (codes "bad")) { skip_verification = true }) now

abbrev RejectedProbeWritesNothing : Type 0
RejectedProbeWritesNothing =
    ((e : Bytes) × (rejection.1 ≡ err (probe_failed (rejected e))))
    × (rejection.0.store.writes ≡ [])
    × ((key : ApiKey) × (Memory.get rejection.0.repo (codes "k") ≡ some key) × (key.status ≡ none))
    × (reasons rejection.0 ≡ codes "RotationRejected" ∷ [])
    × ((o : RotateOutcome) × (skipping.1 ≡ ok o) × (o.probe ≡ skipped) × (o.completed ≡ true))

rejected_probe_writes_nothing : RejectedProbeWritesNothing
unfolding key_name rotation
rejected_probe_writes_nothing = ((_, refl), refl, (_, refl, refl), refl, (_, refl, refl, refl))

abbrev octocat : Prober
octocat =
    static_prober
      (ok (some (record { expires_at = some (ts 12 1 0); identity = some (codes "octocat") })))

abbrev probing : Run
probing =
    rotate (rotator octocat) (fixture github) (codes "k")
      (record (request (codes "k")) { manual_expires_at = some (ts 11 1 0) }) now

abbrev ProbedExpiryWinsAndMismatchIsReported : Type 0
ProbedExpiryWinsAndMismatchIsReported =
    (o : RotateOutcome) × (s : ApiKeyStatus) × (p : Crd.ProbeStatus) × Returns probing o s
    × (o.expiry_mismatch ≡ true)
    × (s.expires_at ≡ some (ts 12 1 0))
    × (s.expires_at_source ≡ some probe)
    × (s.probe ≡ some p)
    × (p.identity ≡ some (codes "octocat"))

probed_expiry_wins_and_mismatch_is_reported : ProbedExpiryWinsAndMismatchIsReported
unfolding key_name rotation
probed_expiry_wins_and_mismatch_is_reported =
    (_, _, _, (refl, (_, refl, refl)), refl, refl, refl, refl, refl)

abbrev asked : World MemoryRepository MemoryWriter → (name value : Bytes) → Run
asked w name value = rotate (rotator no_probe) w name (request value) now

-- With a key that has no targets, and one with a target of no type.
abbrev crowded : World MemoryRepository MemoryWriter
crowded = record (fixture generic) {
  repo =
      Memory.insert (Memory.insert (fixture generic).repo (new_key (codes "manual") default_spec))
        (new_key (codes "bad") (record default_spec { targets = record { openbao = none } ∷ [] }));
}

abbrev RejectsBadRequests : Type 0
RejectsBadRequests =
    ((asked (fixture generic) (codes "k") (codes "  ")).1 ≡ err empty)
    × ((asked (fixture generic) (codes "missing") (codes "x")).1
        ≡ err (not_found (codes "missing")))
    × ((asked crowded (codes "manual") (codes "x")).1 ≡ err no_targets)
    × ((e : Bytes) × ((asked crowded (codes "bad") (codes "x")).1 ≡ err (invalid_spec e)))
    × ((asked crowded (codes "bad") (codes "x")).0.store.writes ≡ [])

rejects_bad_requests : RejectsBadRequests
unfolding key_name rotation Memory.insert Memory.bytes_lt
rejects_bad_requests = (refl, refl, refl, (_, refl), refl)
