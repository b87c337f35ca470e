-- ===== src/Web/Ops.antt =====
-- `ops_router` of src/web/mod.rs: the routes for the cluster, on a port of their own. They read what
-- the program keeps, and change nothing of it.
use you_spin_me.Prelude.{ℕ, Bool, true, false, List, if◌then◌else◌, Bytes, codes, bytes_eq}
use you_spin_me.Time.{Jiff}
use you_spin_me.Repo.{Repository}
use you_spin_me.Schedule.{Thresholds}
use you_spin_me.Rotator.{World}
use you_spin_me.Metrics.Gauges.{Floats}
use you_spin_me.Metrics.Exposition.{Exposed, encode}
use you_spin_me.Web.{Method, Response}
use you_spin_me.Web.Serving.{is_get}

-- What the router has, and what `axum` makes of it. `F` are the floating-point numbers.
pub record Ops (F R : Type 0) : Type 0 where
  pub repository : Repository R
  pub thresholds : Thresholds
  pub jiff : Jiff
  pub floats : Floats F
  pub text_of : List (Exposed F) → Bytes
  pub of_text : ℕ → Bytes → Response
  pub of_typed : (content_type : Bytes) → Bytes → Response
  pub method_not_allowed : Response
  pub not_found : Response

pub data OpsRoute : Type 0 where
  at_metrics at_healthz at_readyz elsewhere : OpsRoute

unfoldable pub ops_route_of : Bytes → OpsRoute
ops_route_of path =
    if bytes_eq path (codes "/metrics")
    then at_metrics
    else if bytes_eq path (codes "/healthz")
    then at_healthz
    else if bytes_eq path (codes "/readyz")
    then at_readyz
    else elsewhere

abbrev is_there : OpsRoute → Bool
is_there at_metrics = true
is_there at_healthz = true
is_there at_readyz = true
is_there elsewhere = false

abbrev pub readyz : (ready : Bool) → ℕ × Bytes
readyz true = (200, codes "ready")
readyz false = (503, codes "cache not synced")

module _ {F R W : Type 0} (ops : Ops F R) where
  unfoldable pub ops_handle : World R W → OpsRoute → Response
  ops_handle w at_metrics =
      ops.of_typed (codes "application/openmetrics-text; version=1.0.0; charset=utf-8")
        (encode ops.floats ops.jiff ops.text_of ops.repository w.repo ops.thresholds w.metrics)
  ops_handle w at_healthz = ops.of_text 200 (codes "ok")
  ops_handle w at_readyz =
      let (status, text) = readyz (ops.repository.ready w.repo) in ops.of_text status text
  ops_handle w elsewhere = ops.not_found

  unfoldable pub serve_ops : World R W → Method → Bytes → Response
  serve_ops w method path =
      let route = ops_route_of path in
      if is_there route
      then (if is_get method then ops_handle w route else ops.method_not_allowed)
      else ops.not_found
