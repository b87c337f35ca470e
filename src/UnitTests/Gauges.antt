-- ===== src/UnitTests/Gauges.antt =====
-- The test of src/metrics.rs. The text of the metrics is written by another crate: the test is of the
-- samples that it is given.
use you_spin_me.Prelude.{
  ◌≡◌, ◌⊎◌, inl, inr, refl, Option, none, some, List, [], ◌∷◌, ◌*◌, Bytes, codes, pos, bytes_eq, ℤ,
  Among,
}
use you_spin_me.Time.{second}
use you_spin_me.Time.Examples.{plain}
use you_spin_me.Crd.{ApiKey, empty_status, failed, key_name, key_namespace, display_name, as_str}
use you_spin_me.Schedule
use you_spin_me.Schedule.{default_thresholds}
use you_spin_me.Repo.Memory.{MemoryRepository, memory, new, list, insert_entry, bytes_lt}
use you_spin_me.Metrics
use you_spin_me.Metrics.{Metrics, no_metrics}
use you_spin_me.Metrics.Gauges.{Labels, Floats, Family, samples_of, healthy_samples, collect}
use you_spin_me.UnitTests.Fixtures.{ts, default_spec, new_key}

abbrev renovate : ApiKey
renovate = record {
  metadata = record {
    name = some (codes "renovate");
    namespace = some (codes "ysm");
    generation = none;
    resource_version = none;
  };
  spec = record default_spec {
    owner = some (codes "david");
    renew_url = some (codes "https://example.com");
  };
  status = some (record empty_status {
    expires_at = some (ts 10 1 0);
    targets =
        record {
          reference = codes "openbao/secret/ci#token";
          last_written = none;
          result = failed;
          message = none;
        }
        ∷ [];
  });
}

abbrev repo : MemoryRepository
repo = new (renovate ∷ new_key (codes "unknown") default_spec ∷ [])

-- Numbers are whole nanoseconds here.
abbrev floats : Floats ℤ
floats = record { seconds = λ t. t; as_secs_f64 = λ d. d; one = pos second; zero = pos 0 }

abbrev metrics : Metrics
metrics = Metrics.probe (Metrics.rotation no_metrics (codes "ok")) (codes "github") (codes "ok")

abbrev labels : (namespace name owner : Bytes) → Labels → Labels
labels namespace name owner more =
    (codes "namespace", namespace)
    ∷ (codes "name", name)
    ∷ (codes "provider", codes "generic")
    ∷ (codes "owner", owner)
    ∷ more

-- A family of this name has this sample.
abbrev Exports : Bytes → Labels × Option ℤ → List (Family ℤ) → Type 0
Exports name sample [] = ⊥
Exports name sample (f ∷ fs) = ((f.name ≡ name) × Among sample f.samples) ⊎ Exports name sample fs

abbrev exported : List (Family ℤ)
exported = collect floats plain memory repo default_thresholds

abbrev ExportsKeyGauges : Type 0
ExportsKeyGauges =
    Exports (codes "youspinme_apikey_deadline_timestamp_seconds")
      (
        labels (codes "ysm") (codes "renovate") (codes "david") [],
        some (pos (1_790_812_800 * second)),
      )
      exported
    × Exports (codes "youspinme_apikey")
        (
          labels (codes "ysm") (codes "renovate") (codes "david") (
              (codes "display_name", codes "renovate")
              ∷ (codes "renew_url", codes "https://example.com")
              ∷ []),
          none,
        )
        exported
    × Exports (codes "youspinme_apikey_state_known")
        (labels [] (codes "unknown") [] [], some (pos 0)) exported
    × Exports (codes "youspinme_apikey_warn_before_seconds")
        (
          labels (codes "ysm") (codes "renovate") (codes "david") [],
          some (pos (1_209_600 * second)),
        )
        exported
    × Exports (codes "youspinme_apikey_target_healthy")
        (
          labels (codes "ysm") (codes "renovate") (codes "david")
              ((codes "target", codes "openbao/secret/ci#token") ∷ []),
          some (pos 0),
        )
        exported
    × (metrics.rotations ≡ (codes "ok", 1) ∷ [])
    × (metrics.probes ≡ (record { provider = codes "github"; result = codes "ok" }, 1) ∷ [])

exports_key_gauges : ExportsKeyGauges
unfolding collect samples_of healthy_samples list new insert_entry bytes_lt bytes_eq
    Schedule.compute key_name key_namespace display_name as_str Metrics.rotation Metrics.probe
    Metrics.increment
exports_key_gauges = (
  inr (inr (inr (inl (refl, inl refl)))),
  inl (refl, inl refl),
  inr (inr (inr (inr (inr (inr (inr (inl (refl, inr (inl refl))))))))),
  inr (inr (inr (inr (inr (inl (refl, inl refl)))))),
  inr (inr (inr (inr (inr (inr (inr (inr (inl (refl, inl refl))))))))),
  refl,
  refl,
)
