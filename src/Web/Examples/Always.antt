-- ===== src/Web/Examples/Always.antt =====
-- What holds after a request that rotated a key, and what the cluster is told then.
use you_spin_me.Prelude.{◌≡◌, refl, bytes_eq, [], ◌∷◌, All, codes, map, ℕ, ℤ}
use you_spin_me.Time.Examples.{plain}
use you_spin_me.Schedule.{default_thresholds}
use you_spin_me.Crd.{key_name}
use you_spin_me.Repo.Memory.{MemoryRepository, memory}
use you_spin_me.Repo.Memory.Refinement.{IsValid}
use you_spin_me.Metrics.Examples.{floats}
use you_spin_me.Metrics.Exposition.{exposed}
use you_spin_me.Metrics.Series.{HasSeries, IsCounted}
use you_spin_me.Rotation.Coherent.{IsCoherent, empty-IsCoherent}
use you_spin_me.Rotator.Examples.{repo-Every}
use you_spin_me.Rotator.Reachable.{IsSound}
use you_spin_me.Web.{Response, get, post}
use you_spin_me.Web.Entries.{after}
use you_spin_me.Web.Coherent.{serve-IsSound}
use you_spin_me.Web.Series.{HasApart, serve-HasSeries}
use you_spin_me.Web.Ops.{Ops, serve_ops, ops_route_of, ops_handle}
use you_spin_me.Web.Examples.{site, calm, past}

serve-IsSound_example : IsSound (after site calm past).repo
serve-IsSound_example = serve-IsSound site calm past (repo-Every IsCoherent empty-IsCoherent)

repo-IsValid : IsValid calm.repo
unfolding key_name
repo-IsValid = record { ascending = (tt, tt); named = (refl, tt) }

calm-IsCounted : IsCounted calm.metrics
calm-IsCounted = record { results = tt; requests = tt }

serve-HasSeries_example : All HasSeries (
    exposed floats plain memory
      (after site calm past).repo
      default_thresholds
      (after site calm past).metrics)
serve-HasSeries_example =
    serve-HasSeries site floats plain default_thresholds calm past repo-IsValid
      (repo-Every HasApart tt) calm-IsCounted

abbrev respond : ℕ → Response
respond status = record { status = status; headers = []; body = [] }

abbrev ops : Ops ℤ MemoryRepository
ops = record {
  repository = memory;
  thresholds = default_thresholds;
  jiff = plain;
  floats = floats;
  text_of = λ fs. [];
  of_text = λ status text. record { status = status; headers = []; body = text };
  of_typed = λ content_type text. respond 200;
  method_not_allowed = respond 405;
  not_found = respond 404;
}

ops_test :
    map
      (λ (r : Response). r.status)
      (serve_ops ops calm get (codes "/metrics")
        ∷ serve_ops ops calm get (codes "/healthz")
        ∷ serve_ops ops calm get (codes "/readyz")
        ∷ serve_ops ops calm post (codes "/readyz")
        ∷ serve_ops ops calm get (codes "/keys")
        ∷ [])
    ≡ 200 ∷ 200 ∷ 200 ∷ 405 ∷ 404 ∷ []
unfolding serve_ops ops_route_of ops_handle bytes_eq
ops_test = refl
