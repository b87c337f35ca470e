-- ===== src/Lib.antt =====
-- you-spin-me keeps track of external API keys. Each key is a Kubernetes resource `ApiKey`: its spec
-- says where the key is renewed, how old it may get and to which secret stores it is written; its
-- status holds what this program did. An admin submits a new key, and the program probes it with
-- its provider, writes it to every target and records the outcome.
--
-- Files, with the sources they model:
--   * Time: the instants and durations of the `jiff` crate, whose operations are a parameter.
--   * Duration (src/duration.rs): `parse` and `humanize`.
--   * Crd (src/crd.rs): the resource's data and the methods on it.
--   * Schedule (src/schedule.rs): thresholds, deadlines and alert states.
--   * Glob and Validation (src/validation.rs): `PathAllowList` with `glob_match`, and `validate`.
--   * Repo (src/repo.rs): the trait `Repository` as a record of operations over a state, and
--     `MemoryRepository`, whose `BTreeMap` is a list of entries sorted by their keys.
--   * Providers (src/providers/mod.rs) and Targets (src/targets/mod.rs): the traits of the two
--     services that a rotation calls, and their simple implementations.
--   * Metrics (src/metrics.rs): the counters, in Metrics/Gauges what `KeyCollector` computes, and in
--     Metrics/Exposition all that is exposed.
--   * Rotation (src/rotation.rs): `apply_rotation` and `record` (named `record_rotation`).
--   * Rotator (src/rotation.rs): `Rotator::rotate`, over any repository, writer and prober. A `World`
--     is the state that it changes. Its steps are functions of their own: `admit` the checks,
--     `probe_key` the probe, `write_targets` the writes, `conclude` the record of them; Rotator/Entry
--     has what goes into the status, and Rotator/Writes what it is to write to all targets.
--   * OpenBao (src/targets/openbao.rs): the writer of secrets, over a parameter `Outside` for HTTP,
--     files, clock, URLs and JSON (OpenBao/Api). The loop of `write_key` is written as its two
--     passes, since the second one never continues.
--   * KubeRepository (src/k8s.rs): the repository and the controller, over a parameter `ApiServer`.
--     KubeRepository/ServerLaws has what that server documents of resource versions, while other
--     clients write at any moment. KubeRepository/Ready is the task that waits for the cache.
--   * Session (src/web/auth.rs): sessions, their checks and the extractors `User` and `Admin` (here
--     `user_of` and `admin_of`), with `AppError` of src/web/mod.rs.
--   * Login (src/web/auth.rs): `login` and `callback`, over a parameter for the identity provider, and
--     in Login/Payload `claim_contains`.
--   * Config (src/config.rs): the settings; Config/Startup what the program makes of them when it
--     starts (`AuthMode::from_config`, `OpenBao::from_config`, and of src/main.rs the functions that
--     `main` calls), and Config/Main `main` itself (named `start`), up to the point where it serves.
--   * Views (src/web/views.rs): `KeyRow::new` (named `row_of`) and `KeyDetail::new` (`detail_of`).
--   * Pages (src/web/pages.rs): the handlers as functions from the state and a request's parts to a
--     reply: `show_index` in Pages/Listing; `show_detail`, `record_page` and `rotate_page` in
--     Pages/Actions, with their forms in Pages/Forms.
--   * Web (src/web/mod.rs): a `Visit` is a request. `Web/Routes.route_of` finds its route; in
--     Web/Serving `handle` runs the extractors and the handler of that, `origin_check` and `serve`
--     put the middleware around it; a response comes with the state and the cookies that it leaves.
--     Web/Sessions and Web/Browsing follow a browser, whose cookies hold what the program gave it.
--     Web/Entries follows the histories of the keys over a list of requests, Web/NoLeak the value of
--     a submitted key through the whole program.
--   * Demo (src/demo.rs): the sample keys.
--   * UnitTests: the unit tests of the sources, as equations that the model computes; so the model
--     agrees with the code wherever these tests pin it down.
--
-- A text is the list of the bytes of its UTF-8. A timestamp is a whole number of nanoseconds.
-- Wherever the source reads the clock, the instant is an argument. No function needs fuel: all
-- loops run over a list, except `decimal`, whose fuel is more than the number that it prints, and
-- the attempts of a status update, which the source limits to three.
-- Integers of the source are natural numbers or ℤ; `Duration.parse` writes out the range of `i64`, and
-- the sums of seconds that can leave it wrap (`wrap_i64`).
--
-- Parameters stand for the crates: the templates (`render`), `axum`, URLs, dates, case folding, base64
-- and floating-point numbers.
--
-- Not modelled: logging, the zeroing of secrets in memory, serialisation, the listeners, and
-- asynchrony (a call runs to its end before the next one; only the API server serves other clients
-- in between).
mod Prelude
pub mod Time
pub mod Duration
pub mod Crd
pub mod Schedule
pub mod Glob
pub mod Validation
pub mod Repo
pub mod Providers
pub mod Targets
pub mod OpenBao
pub mod KubeRepository
pub mod Session
pub mod Login
pub mod Metrics
pub mod Rotation
pub mod Rotator
pub mod Views
pub mod Config
pub mod Pages
pub mod Web
pub mod Demo
mod UnitTests
