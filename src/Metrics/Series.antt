-- ===== src/Metrics/Series.antt =====
-- No two samples of a family that is exposed have the same labels: the counters, as they are counted,
-- and then all families.
use you_spin_me.Prelude.{
  ◌≡◌, ◌≢◌, inl, inr, ap, arith, ℕ, Bool, false, Bool-cases, List, [], ◌∷◌, map, All, Bytes,
  bytes_eq, bytes_eq_iff,
}
use you_spin_me.Time.{Jiff}
use you_spin_me.Repo.{Repository}
use you_spin_me.Repo.Memory.Listing.{IsSorted}
use you_spin_me.Schedule.{Thresholds}
use you_spin_me.Metrics.{Metrics, ProbeLabels, increment, same_labels, rotation, probe}
use you_spin_me.Metrics.Gauges.{Labels, Floats, Family}
use you_spin_me.Metrics.Exposition.{Exposed, counters, gauges, result_labels, probe_labels, exposed}
use you_spin_me.Metrics.Distinct.{IsDistinct, HasTargets, collect-IsDistinct}

-- The samples of a family have different labels.
abbrev pub HasSeries : {F : Type 0} → Exposed F → Type 0
HasSeries (counters name help samples) = IsDistinct samples
HasSeries (gauges f) = IsDistinct f.samples

module _ {L : Type 0} (same : L → L → Bool) (labels : L → Labels) where
  abbrev pub encoded : List (L × ℕ) → List (Labels × ℕ)
  encoded = map (λ c. (labels c.0, c.1))

  module _ (tells : (a b : L) → same a b ≡ false → labels a ≢ labels b) (l : L) where
    increment-other :
        (k : Labels) (cs : List (L × ℕ))
        → k ≢ labels l
        → All (λ m. k ≢ m.0) (encoded cs)
        → All (λ m. k ≢ m.0) (encoded (increment same l cs))
    unfolding increment
    increment-other k [] n h = (n, tt)
    increment-other k ((j, c) ∷ cs) n h = elim (Bool-cases (same j l)) [
      | inl e ↦ rw (e, encoded) h
      | inr e ↦ rw (e, encoded) (h.0, increment-other k cs n h.1)
    ]

    increment-IsDistinct :
        (cs : List (L × ℕ)) → IsDistinct (encoded cs) → IsDistinct (encoded (increment same l cs))
    unfolding increment
    increment-IsDistinct [] h = (tt, tt)
    increment-IsDistinct ((j, c) ∷ cs) h = elim (Bool-cases (same j l)) [
      | inl e ↦ rw (e, encoded, IsDistinct) h
      | inr e ↦
          rw (e, encoded, IsDistinct)
            (increment-other (labels j) cs (tells j l e) h.0, increment-IsDistinct cs h.1)
    ]

-- The values of the labels.
abbrev values : Labels → List Bytes
values = map (λ l. l.1)

abbrev first : List Bytes → Bytes
first [] = []
first (v ∷ vs) = v

abbrev second : List Bytes → Bytes
second [] = []
second (v ∷ vs) = first vs

results_differ : (a b : Bytes) → bytes_eq a b ≡ false → result_labels a ≢ result_labels b
results_differ a b h e =
    let (to, from) = bytes_eq_iff a b in
    absurd (ground (arith, from (ap (λ l. first (values l)) e)))

probes_differ : (a b : ProbeLabels) → same_labels a b ≡ false → probe_labels a ≢ probe_labels b
probes_differ a b h e =
    let (to, from) = bytes_eq_iff a.provider b.provider in
    let (to', from') = bytes_eq_iff a.result b.result in
    absurd
      (ground (arith, from (ap (λ l. first (values l)) e), from' (ap (λ l. second (values l)) e)))

-- The counters have different labels.
pub record IsCounted (m : Metrics) : Type 0 where
  pub results : IsDistinct (encoded bytes_eq result_labels m.rotations)
  pub requests : IsDistinct (encoded same_labels probe_labels m.probes)

pub rotation-IsCounted :
    (m : Metrics) (result : Bytes) → IsCounted m → IsCounted (rotation m result)
unfolding rotation
rotation-IsCounted m result h = record {
  results = increment-IsDistinct bytes_eq result_labels results_differ result m.rotations h.results;
  requests = h.requests;
}

pub probe-IsCounted :
    (m : Metrics) (provider result : Bytes) → IsCounted m → IsCounted (probe m provider result)
unfolding probe
probe-IsCounted m provider result h = record {
  results = h.results;
  requests =
      increment-IsDistinct same_labels probe_labels probes_differ
        (record { provider = provider; result = result }) m.probes h.requests;
}

module _ {F : Type 0} (floats : Floats F) (jiff : Jiff) (thresholds : Thresholds) where
  gauges-HasSeries :
      (fs : List (Family F)) → All (λ f. IsDistinct f.samples) fs → All HasSeries (map gauges fs)
  gauges-HasSeries [] h = tt
  gauges-HasSeries (f ∷ fs) h = (h.0, gauges-HasSeries fs h.1)

  pub exposed-HasSeries :
      {R : Type 0} (repository : Repository R) (r : R) (m : Metrics)
      → IsCounted m
      → IsSorted (repository.list r)
      → All (λ k. HasTargets k.status) (repository.list r)
      → All HasSeries (exposed floats jiff repository r thresholds m)
  unfolding exposed
  exposed-HasSeries repository r m c h t = (
    c.results,
    (c.requests, gauges-HasSeries _ (collect-IsDistinct floats jiff thresholds repository r h t)),
  )
