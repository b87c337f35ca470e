-- ===== src/Metrics.antt =====
-- The counters of src/metrics.rs. A family of counters is a list of labels with their counts.
pub mod Gauges
pub mod Exposition
pub mod Distinct
pub mod Series
pub mod Examples
use you_spin_me.Prelude.{ℕ, ◌+◌, Bool, List, [], ◌∷◌, if◌then◌else◌, ◌&&◌, Bytes, bytes_eq}

pub record ProbeLabels : Type 0 where
  pub provider : Bytes
  pub result : Bytes

pub record Metrics : Type 0 where
  pub rotations : List (Bytes × ℕ)
  pub probes : List (ProbeLabels × ℕ)

abbrev pub no_metrics : Metrics
no_metrics = record { rotations = []; probes = [] }

module _ {L : Type 0} (same : L → L → Bool) where
  -- `family.get_or_create(labels).inc()`
  unfoldable pub increment : L → List (L × ℕ) → List (L × ℕ)
  increment l [] = (l, 1) ∷ []
  increment l ((k, n) ∷ more) = if same k l then (k, n + 1) ∷ more else (k, n) ∷ increment l more

  unfoldable pub count : L → List (L × ℕ) → ℕ
  count l [] = 0
  count l ((k, n) ∷ more) = if same k l then n else count l more

abbrev pub same_labels : ProbeLabels → ProbeLabels → Bool
same_labels a b = bytes_eq a.provider b.provider && bytes_eq a.result b.result

-- `Metrics::rotation` and `Metrics::probe`.
unfoldable pub rotation : Metrics → Bytes → Metrics
rotation m result = record m { rotations = increment bytes_eq result m.rotations }

unfoldable pub probe : Metrics → Bytes → Bytes → Metrics
probe m provider result = record m {
  probes = increment same_labels (record { provider = provider; result = result }) m.probes;
}
