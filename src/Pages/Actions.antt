-- ===== src/Pages/Actions.antt =====
-- The page of one key, and the two forms on it: `detail`, `record` and `rotate` of src/web/pages.rs,
-- each as a function of the state, the session and the parts of the request. `now` is the instant at
-- which the handler, or the rotation that it runs, reads the clock.
use you_spin_me.Prelude.{
  not, Option, none, some, List, [], ◌∷◌, ◌++◌, is_nil, is_some, map_option, unwrap_or,
  if◌then◌else◌, Result, ok, err, Bytes, codes,
}
use you_spin_me.Time.{Timestamp, Jiff}
use you_spin_me.Crd.{is_generic}
use you_spin_me.Metrics
use you_spin_me.Rotation.{record_rotation, RotateRequest, RotateOutcome}
use you_spin_me.Rotator
use you_spin_me.Rotator.{World, show_probe_error}
use you_spin_me.Session
use you_spin_me.Session.{AppError, bad_request, internal, Session, actor, check_csrf, fresh_enough}
use you_spin_me.Config.{thresholds}
use you_spin_me.Views.Detail.{detail_of}
use you_spin_me.Pages.{
  detail, RotateResult, rotate_result, Reply, redirect, Headers, App, layout_of, rendered,
}
use you_spin_me.Pages.Forms.{
  show_rotate_error, app_error_of, message_of, parse_date, rotated_at_of, notice_of, RecordForm,
  RotateForm,
}

abbrev pub csrf_header : Bytes
csrf_header = codes "x-csrf-token"

module _ {R W : Type 0} (app : App R W) where
  abbrev jiff : Jiff
  jiff = app.crates.views.crates.jiff

  abbrev debug : Bytes → Bytes
  debug = app.crates.views.crates.debug

  -- `detail`
  unfoldable pub show_detail :
      World R W
      → Session
      → (jar : Bytes → Option Bytes) → Bytes
      → (notice : Bytes) → Timestamp
      → Result AppError Reply
  show_detail w session jar name notice now = elim (app.rotator.repository.get w.repo name) [
    | none ↦ err (Session.not_found (codes "no API key named " ++ debug name))
    | some key ↦
        let shown = detail_of app.crates.views key (thresholds app.cfg) now in
        rendered app.crates [] (
          detail (record {
            layout = layout_of app session jar shown.row.display_name;
            key = shown;
            can_rotate = not (is_nil key.spec.targets);
            probe_supported = not (is_generic key.spec.provider);
            notice = notice_of notice;
            today = jiff.fmt_date now;
          }))
  ]

  -- Where `record` sends an admin to log in again.
  abbrev pub reauth_url : Bytes → Bytes
  reauth_url name =
      codes "/auth/login?reauth=true&next="
      ++ app.crates.urlencode
          (codes "/keys/" ++ (app.crates.urlencode name ++ codes "?notice=reauth"))

  -- The dates of the form, read one after the other.
  abbrev pub dates_of : RecordForm → Timestamp → Result AppError (Timestamp × Option Timestamp)
  dates_of form now = elim (parse_date app.crates form.rotated_at) [
    | err e ↦ err e
    | ok d ↦ elim (parse_date app.crates form.expires_at) [
      | err e ↦ err e
      | ok expires_at ↦ ok (rotated_at_of jiff d now, expires_at)
    ]
  ]

  -- What follows the checks of `record`.
  unfoldable pub record_checked :
      World R W → Session → Bytes → RecordForm → Timestamp → World R W × Result AppError Reply
  record_checked w session name form now = elim (dates_of form now) [
    | err e ↦ (w, err e)
    | ok (rotated_at, expires_at) ↦
        let (r, result) =
          record_rotation jiff app.rotator.repository w.repo name (actor session) rotated_at
            expires_at now in
        elim result [
          | err e ↦ (record w { repo = r }, err (app_error_of debug e))
          | ok updated ↦ (
            record w { repo = r; metrics = Metrics.rotation w.metrics (codes "recorded") },
            ok (
                redirect
                  (codes "/keys/" ++ (app.crates.urlencode name ++ codes "?notice=recorded"))),
          )
        ]
  ]

  -- `record`, for the session of an admin.
  unfoldable pub record_page :
      World R W
      → Session
      → Headers
      → Bytes
      → RecordForm
      → Timestamp
      → World R W × Result AppError Reply
  record_page w session headers name form now =
      elim (check_csrf session (headers.get csrf_header) form.csrf) [
        | err e ↦ (w, err e)
        | ok u ↦
            if not (fresh_enough jiff session app.cfg.auth.step_up_max_age now)
            then (w, ok (redirect (reauth_url name)))
            else record_checked w session name form now
      ]

  abbrev pub request_of : Session → RotateForm → Option Timestamp → RotateRequest
  request_of session form manual_expires_at = record {
    value = form.key;
    actor = actor session;
    manual_expires_at = manual_expires_at;
    skip_verification = is_some form.skip_verification;
  }

  abbrev pub result_of : Bytes → List Bytes → Bytes → Option RotateOutcome → RotateResult
  result_of name consumers error outcome = record {
    name = name;
    error = error;
    outcome = outcome;
    consumers = consumers;
  }

  abbrev pub outcome_headers : RotateOutcome → List (Bytes × Bytes)
  outcome_headers o =
      if o.completed then (codes "HX-Trigger", codes "rotation-complete") ∷ [] else []

  -- What follows the check of `rotate`.
  unfoldable pub rotate_checked :
      World R W
      → Session
      → Bytes
      → RotateForm
      → (now : Timestamp) → World R W × Result AppError Reply
  rotate_checked w session name form now =
      let consumers =
        unwrap_or (map_option (λ k. k.spec.consumers) (app.rotator.repository.get w.repo name))
          [] in
      elim (parse_date app.crates form.expires_at) [
        | err e ↦ (
          w,
          rendered app.crates [] (rotate_result (result_of name consumers (message_of e) none)),
        )
        | ok d ↦
            let (w', result) = Rotator.rotate app.rotator w name (request_of session form d) now in
            elim result [
              | err e ↦ (
                w',
                rendered app.crates []
                    (rotate_result (result_of name consumers (show_rotate_error debug e) none)),
              )
              | ok o ↦ (
                w',
                rendered app.crates (outcome_headers o)
                    (rotate_result (result_of name consumers [] (some o))),
              )
            ]
      ]

  -- `rotate`, for the session of an admin.
  unfoldable pub rotate_page :
      World R W
      → Session
      → Headers
      → Bytes
      → RotateForm
      → (now : Timestamp) → World R W × Result AppError Reply
  rotate_page w session headers name form now =
      elim (check_csrf session (headers.get csrf_header) form.csrf) [
        | err e ↦ (w, err e)
        | ok u ↦ rotate_checked w session name form now
      ]
