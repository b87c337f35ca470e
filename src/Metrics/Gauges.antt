-- ===== src/Metrics/Gauges.antt =====
-- `KeyCollector` of src/metrics.rs: the gauges of all keys, computed from the repository whenever they
-- are asked for. Floating-point numbers are a parameter `F`; the text of the families is written by
-- the `prometheus-client` crate.
use you_spin_me.Prelude.{
  Option, none, some, List, [], ◌∷◌, ◌++◌, map, map_option, unwrap_or, is_some, if◌then◌else◌,
  Bytes, codes,
}
use you_spin_me.Time.{Timestamp, SignedDuration, Jiff}
use you_spin_me.Crd.{
  ApiKey, key_name, key_namespace, display_name, as_str, TargetStatus, TargetResult, succeeded,
  failed,
}
use you_spin_me.Repo.{Repository}
use you_spin_me.Schedule.{Thresholds, Schedule, compute}

abbrev pub Labels : Type 0
Labels = List (Bytes × Bytes)

-- `as_millisecond() as f64 / 1000.0`, `as_secs_f64`, and two literals.
pub record Floats (F : Type 0) : Type 0 where
  pub seconds : Timestamp → F
  pub as_secs_f64 : SignedDuration → F
  pub one : F
  pub zero : F

pub data MetricType : Type 0 where
  gauge_type info_type : MetricType

pub record Family (F : Type 0) : Type 0 where
  pub name : Bytes
  pub help : Bytes
  pub metric_type : MetricType
  -- An info metric has no value.
  pub samples : List (Labels × Option F)

abbrev pub key_labels : ApiKey → Labels
key_labels key =
    (codes "namespace", key_namespace key)
    ∷ (codes "name", key_name key)
    ∷ (codes "provider", as_str key.spec.provider)
    ∷ (codes "owner", unwrap_or key.spec.owner [])
    ∷ []

pub record Row : Type 0 where
  pub key : ApiKey
  pub labels : Labels
  pub schedule : Schedule

abbrev pub row_of : Jiff → Thresholds → ApiKey → Row
row_of jiff thresholds key = record {
  key = key;
  labels = key_labels key;
  schedule = compute jiff key thresholds;
}

module _ {F : Type 0} (floats : Floats F) where
  -- The rows that have a value, with their labels.
  unfoldable pub samples_of : List Row → (Row → Option F) → List (Labels × Option F)
  samples_of [] value = []
  samples_of (r ∷ rows) value =
      let rest = samples_of rows value in
      elim (value r) [ none ↦ rest | some v ↦ (r.labels, some v) ∷ rest ]

  abbrev pub gauge : List Row → Bytes → Bytes → (Row → Option F) → Family F
  gauge rows name help value = record {
    name = name;
    help = help;
    metric_type = gauge_type;
    samples = samples_of rows value;
  }

  abbrev pub info_labels : Row → Labels
  info_labels r =
      r.labels
      ++ (codes "display_name", display_name r.key)
        ∷ (codes "renew_url", unwrap_or r.key.spec.renew_url [])
        ∷ []

  abbrev pub info : List Row → Family F
  info rows = record {
    name = codes "youspinme_apikey";
    help = codes "ApiKey metadata, for joins in alert annotations";
    metric_type = info_type;
    samples = map (λ r. (info_labels r, none)) rows;
  }

  abbrev pub health : TargetResult → F
  health succeeded = floats.one
  health failed = floats.zero

  abbrev pub target_samples : Labels → List TargetStatus → List (Labels × Option F)
  target_samples labels =
      map (λ t. (labels ++ (codes "target", t.reference) ∷ [], some (health t.result)))

  unfoldable pub healthy_samples : List Row → List (Labels × Option F)
  healthy_samples [] = []
  healthy_samples (r ∷ rows) =
      let rest = healthy_samples rows in
      elim r.key.status [
        | none ↦ rest
        | some status ↦ target_samples r.labels status.targets ++ rest
      ]

  abbrev pub known : Option Timestamp → F
  known d = if is_some d then floats.one else floats.zero

  abbrev pub rows_of : {R : Type 0} → Jiff → Repository R → R → Thresholds → List Row
  rows_of jiff repository r thresholds = map (row_of jiff thresholds) (repository.list r)

  -- `KeyCollector::encode`, of the keys of the repository.
  unfoldable pub collect : {R : Type 0} → Jiff → Repository R → R → Thresholds → List (Family F)
  collect jiff repository r thresholds =
      let rows = rows_of jiff repository r thresholds in
      info rows
      ∷ gauge rows (codes "youspinme_apikey_expiry_timestamp_seconds")
          (codes "Effective expiry of the key (probed or entered by hand)")
          (λ r. map_option floats.seconds r.schedule.expires_at)
      ∷ gauge rows (codes "youspinme_apikey_rotate_by_timestamp_seconds")
          (codes "lastRotated + maxAge") (λ r. map_option floats.seconds r.schedule.rotate_by)
      ∷ gauge rows (codes "youspinme_apikey_deadline_timestamp_seconds")
          (codes "Earlier of expiry and rotate-by; the one to alert on")
          (λ r. map_option (λ d. floats.seconds d.0) r.schedule.deadline)
      ∷ gauge rows (codes "youspinme_apikey_last_rotated_timestamp_seconds")
          (codes "When the key was last rotated or recorded")
          (λ r. map_option floats.seconds r.schedule.last_rotated)
      ∷ gauge rows (codes "youspinme_apikey_warn_before_seconds")
          (codes "Warning threshold before the deadline")
          (λ r. some (floats.as_secs_f64 r.schedule.thresholds.warn_before))
      ∷ gauge rows (codes "youspinme_apikey_critical_before_seconds")
          (codes "Critical threshold before the deadline")
          (λ r. some (floats.as_secs_f64 r.schedule.thresholds.critical_before))
      ∷ gauge rows (codes "youspinme_apikey_state_known")
          (codes "1 if the key has a deadline, 0 if its state is unknown")
          (λ r. some (known (map_option (λ d. d.0) r.schedule.deadline)))
      ∷ record {
        name = codes "youspinme_apikey_target_healthy";
        help = codes "1 if the last write to the target succeeded";
        metric_type = gauge_type;
        samples = healthy_samples rows;
      }
      ∷ []
