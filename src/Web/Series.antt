-- ===== src/Web/Series.antt =====
-- What `/metrics` exposes of the program with its keys in memory, after any sequence of requests.
use you_spin_me.Prelude.{inl, inr, refl, Option, none, some, List, [], ◌∷◌, All, unwrap_or}
use you_spin_me.Time.{Jiff}
use you_spin_me.Schedule.{Thresholds}
use you_spin_me.Crd.{ApiKey, ApiKeyStatus, empty_status, key_name}
use you_spin_me.Repo.Memory.{MemoryRepository, memory, list, get}
use you_spin_me.Repo.Memory.Refinement.{IsValid, update_status-IsValid, record_event-IsValid}
use you_spin_me.Repo.Memory.Listing.{IsIn, IsIn-lookup, IsSorted-keys_of}
use you_spin_me.Metrics.Gauges.{Floats}
use you_spin_me.Metrics.Exposition.{exposed}
use you_spin_me.Metrics.Distinct.{HasDistinct, HasTargets}
use you_spin_me.Metrics.Series.{
  HasSeries, IsCounted, rotation-IsCounted, probe-IsCounted, exposed-HasSeries,
}
use you_spin_me.Rotation.{apply_rotation}
use you_spin_me.Rotator.{World}
use you_spin_me.Rotator.Every.{Every}
use you_spin_me.Rotator.Kept.{Keeps}
use you_spin_me.Rotator.Distinct.{record_outcomes-HasDistinct}
use you_spin_me.Web.{Site}
use you_spin_me.Web.Accountable.{in_memory}
use you_spin_me.Web.Entries.{Served, after}
use you_spin_me.Web.Kept.{serve-Kept}
use you_spin_me.Web.Statuses.{KeptByBoth, serve-Every}

-- The statuses have targets with different references.
abbrev pub HasApart : ApiKeyStatus → Type 0
HasApart s = HasDistinct s.targets

both-HasApart : KeptByBoth HasApart
unfolding apply_rotation
both-HasApart = record {
  records = λ at by expires_at s h. h;
  rotates = record_outcomes-HasDistinct;
}

-- The repository is a map from names to keys of these names, and the counters have different labels.
abbrev pub IsOrderly : {W : Type 0} → World MemoryRepository W → Type 0
IsOrderly w = IsValid w.repo × IsCounted w.metrics

keeps-IsOrderly : {W : Type 0} → Keeps {W = W} memory IsOrderly
keeps-IsOrderly = record {
  updates = λ w name mutate h. (update_status-IsValid w.repo name mutate h.0, h.1);
  notes = λ w key event h. (record_event-IsValid w.repo key event h.0, h.1);
  stores = λ w store h. h;
  counts = λ w label h. (h.0, rotation-IsCounted w.metrics label h.1);
  probes = λ w provider label h. (h.0, probe-IsCounted w.metrics provider label h.1);
}

All-of_IsIn : (P : ApiKey → Type 0) (ks : List ApiKey) → ((k : ApiKey) → IsIn k ks → P k) → All P ks
All-of_IsIn P [] h = tt
All-of_IsIn P (k ∷ ks) h = (h k (inl refl), All-of_IsIn P ks (λ j i. h j (inr i)))

targets_of :
    (status : Option ApiKeyStatus) → HasApart (unwrap_or status empty_status) → HasTargets status
targets_of none h = tt
targets_of (some s) h = h

listed-HasTargets :
    (r : MemoryRepository)
    → IsValid r
    → Every (λ _. HasApart) r
    → All (λ k. HasTargets k.status) (list r)
unfolding list get
listed-HasTargets r valid h = All-of_IsIn _ (list r) (λ k i.
    targets_of k.status (h (key_name k) k (IsIn-lookup k r.keys valid.ascending valid.named i)))

module _ {T W F : Type 0} (site : Site T MemoryRepository W) (floats : Floats F) (jiff : Jiff)
    (thresholds : Thresholds) where
  after-IsOrderly :
      (w0 : World MemoryRepository W) (past : List Served)
      → IsOrderly w0
      → IsOrderly (after site w0 past)
  after-IsOrderly w0 [] h = h
  after-IsOrderly w0 (x ∷ past) h =
      serve-Kept (in_memory site) IsOrderly keeps-IsOrderly (after site w0 past) x.visit x.asked
        x.now (after-IsOrderly w0 past h)

  -- Whatever requests are served over the in-memory repository, no two samples of one family that is
  -- exposed have the same labels, if at the start each key stands under its own name, in the order of the names, no status
  -- has two targets of one reference and the counters have different labels.
  pub serve-HasSeries :
      (w0 : World MemoryRepository W) (past : List Served)
      → IsValid w0.repo
      → Every (λ _. HasApart) w0.repo
      → IsCounted w0.metrics
      → All HasSeries (
          exposed floats jiff memory
            (after site w0 past).repo
            thresholds
            (after site w0 past).metrics)
  serve-HasSeries w0 past valid apart counted =
      let w = after site w0 past in
      let (valid', counted') = after-IsOrderly w0 past (valid, counted) in
      exposed-HasSeries floats jiff thresholds memory w.repo w.metrics counted'
        (unfold list in IsSorted-keys_of w.repo.keys valid'.ascending valid'.named)
        (listed-HasTargets w.repo valid' (serve-Every site HasApart both-HasApart w0 past apart))
