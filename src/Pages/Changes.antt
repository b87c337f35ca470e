-- ===== src/Pages/Changes.antt =====
-- What the two forms do to the repository, once their checks are passed: src/web/pages.rs.
use you_spin_me.Prelude.{
  ◌≡◌, true, ◌⊎◌, inl, inr, arith, Bool-cases, Option, Result, Result-cases, ok, err, Bytes, codes,
  refl, ◌++◌,
}
use you_spin_me.Time.{Timestamp}
use you_spin_me.Session.{AppError, Session, actor, check_csrf, fresh_enough, provided}
use you_spin_me.Rotation.{record_rotation}
use you_spin_me.Session.Access.{check_csrf_iff}
use you_spin_me.Crd.{ApiKey}
use you_spin_me.Metrics
use you_spin_me.Metrics.{Metrics}
use you_spin_me.Rotator.{World, rotate}
use you_spin_me.Pages.{App, Headers, Reply, redirect}
use you_spin_me.Pages.Forms.{app_error_of, parse_date, RecordForm, RotateForm}
use you_spin_me.Pages.Actions.{
  csrf_header, reauth_url, dates_of, request_of, record_page, rotate_page, record_checked,
  rotate_checked,
}

module _ {R W : Type 0} (app : App R W) (w : World R W) (session : Session) (name : Bytes)
    (now : Timestamp) where
  pub record_checked-undated :
      (form : RecordForm) (e : AppError)
      → dates_of app form now ≡ err e
      → record_checked app w session name form now ≡ (w, err e)
  unfolding record_checked
  record_checked-undated form e h = rw (h, record_checked)

  pub record_checked-repo :
      (form : RecordForm) (at : Timestamp) (expires_at : Option Timestamp)
      → dates_of app form now ≡ ok (at, expires_at)
      → (record_checked app w session name form now).0.repo
        ≡ (record_rotation app.crates.views.crates.jiff app.rotator.repository w.repo name
            (actor session)
            at
            expires_at
            now).0
  unfolding record_checked
  record_checked-repo form at expires_at h = rw (h, record_checked) (ground arith)

  pub record_checked-recorded :
      (form : RecordForm) (at : Timestamp) (expires_at : Option Timestamp) (updated : ApiKey)
      → dates_of app form now ≡ ok (at, expires_at)
      → (record_rotation app.crates.views.crates.jiff app.rotator.repository w.repo name
          (actor session)
          at
          expires_at
          now).1
        ≡ ok updated
      → record_checked app w session name form now ≡ (
        record w {
          repo =
              (record_rotation app.crates.views.crates.jiff app.rotator.repository w.repo name
                (actor session)
                at
                expires_at
                now).0;
          metrics = Metrics.rotation w.metrics (codes "recorded");
        },
        ok (redirect (codes "/keys/" ++ (app.crates.urlencode name ++ codes "?notice=recorded"))),
      )
  unfolding record_checked
  record_checked-recorded form at expires_at updated p q = rw (p, record_checked) (rw q refl)

  pub record_page-checked :
      (headers : Headers) (form : RecordForm)
      → provided (headers.get csrf_header) form.csrf ≡ session.csrf
      → fresh_enough app.crates.views.crates.jiff session app.cfg.auth.step_up_max_age now ≡ true
      → record_page app w session headers name form now ≡ record_checked app w session name form now
  unfolding record_page
  record_page-checked headers form token fresh =
      let passed = (check_csrf_iff session (headers.get csrf_header) form.csrf).1 token in
      ground arith

  pub rotate_page-checked :
      (headers : Headers) (form : RotateForm)
      → provided (headers.get csrf_header) form.csrf ≡ session.csrf
      → rotate_page app w session headers name form now ≡ rotate_checked app w session name form now
  unfolding rotate_page
  rotate_page-checked headers form token =
      let passed = (check_csrf_iff session (headers.get csrf_header) form.csrf).1 token in
      ground arith

  pub rotate_checked-undated :
      (form : RotateForm) (e : AppError)
      → parse_date app.crates form.expires_at ≡ err e
      → (rotate_checked app w session name form now).0 ≡ w
  unfolding rotate_checked
  rotate_checked-undated form e h = rw (h, rotate_checked)

  pub rotate_checked-world :
      (form : RotateForm) (d : Option Timestamp)
      → parse_date app.crates form.expires_at ≡ ok d
      → (rotate_checked app w session name form now).0
        ≡ (rotate app.rotator w name (request_of app session form d) now).0
  unfolding rotate_checked
  rotate_checked-world form d h = rw (h, rotate_checked) (ground arith)

module _ {R W : Type 0} (app : App R W) (session : Session) (headers : Headers) (name : Bytes)
    (now : Timestamp) where
  -- The checks of the page do not depend on what is kept.
  pub record_page-cases :
      (form : RecordForm)
      → ((result : Result AppError Reply) × ((w : World R W)
            → record_page app w session headers name form now ≡ (w, result)))
        ⊎ ((w : World R W)
            → record_page app w session headers name form now
              ≡ record_checked app w session name form now)
  unfolding record_page
  record_page-cases form =
      elim (Result-cases (check_csrf session (headers.get csrf_header) form.csrf)) [
        | inr (e, p) ↦ inl (err e, λ w. rw (p, record_page))
        | inl (u, p) ↦
            elim (Bool-cases (
              fresh_enough app.crates.views.crates.jiff session app.cfg.auth.step_up_max_age now)) [
                | inl fresh ↦ inr (λ w. ground arith)
                | inr stale ↦ inl (ok (redirect (reauth_url app name)), λ w. ground arith)
              ]
      ]

module _ {R W : Type 0} (app : App R W) (session : Session) (name : Bytes) (now : Timestamp) (r : R)
    (m : Metrics) where
  -- What recording does is decided by the repository alone, and the targets are left as they are.
  pub record_checked-store :
      (form : RecordForm)
      → (r' : R) × (m' : Metrics) × (result : Result AppError Reply) × ((s : W)
          → record_checked app (record { repo = r; store = s; metrics = m }) session name form now
            ≡ (record { repo = r'; store = s; metrics = m' }, result))
  unfolding record_checked
  record_checked-store form = elim (Result-cases (dates_of app form now)) [
    | inr (e, p) ↦ (r, m, err e, λ s. rw (p, record_checked))
    | inl ((at, expires_at), p) ↦
        let tried =
          record_rotation app.crates.views.crates.jiff app.rotator.repository r name (actor session)
            at expires_at now in
        elim (Result-cases tried.1) [
          | inr (e, q) ↦ (
            tried.0,
            m,
            err (app_error_of app.crates.views.crates.debug e),
            λ s. rw (p, record_checked) (rw q refl),
          )
          | inl (k, q) ↦ (
            tried.0,
            Metrics.rotation m (codes "recorded"),
            ok (
                redirect
                  (codes "/keys/" ++ (app.crates.urlencode name ++ codes "?notice=recorded"))),
            λ s. rw (p, record_checked) (rw q refl),
          )
        ]
  ]
