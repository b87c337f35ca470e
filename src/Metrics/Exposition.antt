-- ===== src/Metrics/Exposition.antt =====
-- `Metrics::new` and `Metrics::encode` of src/metrics.rs: what is registered, with what it holds when
-- it is asked for. Its text is written by the `prometheus-client` crate, a parameter.
use you_spin_me.Prelude.{ℕ, List, [], ◌∷◌, ◌++◌, map, Bytes, codes}
use you_spin_me.Time.{Jiff}
use you_spin_me.Repo.{Repository}
use you_spin_me.Schedule.{Thresholds}
use you_spin_me.Metrics.{Metrics, ProbeLabels}
use you_spin_me.Metrics.Gauges.{Labels, Floats, Family, collect}

-- A family of counters, or one of the collector.
pub data Exposed (F : Type 0) : Type 0 where
  counters : (name help : Bytes) → List (Labels × ℕ) → Exposed F
  gauges : Family F → Exposed F

-- The labels as they are encoded: the fields by their names.
abbrev pub result_labels : Bytes → Labels
result_labels result = (codes "result", result) ∷ []

abbrev pub probe_labels : ProbeLabels → Labels
probe_labels l = (codes "provider", l.provider) ∷ (codes "result", l.result) ∷ []

abbrev pub registered : {F : Type 0} → Metrics → List (Exposed F)
registered m =
    counters (codes "youspinme_rotations")
      (codes "Key submissions by result (ok, partial, failed, rejected)")
      (map (λ c. (result_labels c.0, c.1)) m.rotations)
    ∷ counters (codes "youspinme_probe_requests")
        (codes "Provider probe requests by provider and result")
        (map (λ c. (probe_labels c.0, c.1)) m.probes)
    ∷ []

module _ {F : Type 0} (floats : Floats F) (jiff : Jiff) where
  -- All that is registered, the collector last.
  unfoldable pub exposed : {R : Type 0} → Repository R → R → Thresholds → Metrics → List (Exposed F)
  exposed repository r thresholds m =
      registered m ++ map gauges (collect floats jiff repository r thresholds)

  unfoldable pub encode :
      {R : Type 0} → (List (Exposed F) → Bytes) → Repository R → R → Thresholds → Metrics → Bytes
  encode text_of repository r thresholds m = text_of (exposed repository r thresholds m)
