-- ===== src/Pages/Guarded.antt =====
-- When the two forms change anything: the checks of src/web/pages.rs.
use you_spin_me.Prelude.{◌≡◌, ◌⊎◌, inl, inr, arith, true, Bool-cases, Result-cases, Bytes}
use you_spin_me.Time.{Timestamp}
use you_spin_me.Session.{Session, provided, check_csrf, fresh_enough}
use you_spin_me.Session.Access.{check_csrf_iff}
use you_spin_me.Rotator.{World}
use you_spin_me.Pages.{Headers, App}
use you_spin_me.Pages.Forms.{RecordForm, RotateForm}
use you_spin_me.Pages.Actions.{
  csrf_header, record_checked, record_page, rotate_checked, rotate_page,
}

module _ {R W : Type 0} (app : App R W) (w : World R W) (session : Session) (headers : Headers)
    (name : Bytes) (now : Timestamp) where
  pub record_page-change :
      (form : RecordForm)
      → ((record_page app w session headers name form now).0 ≡ w)
        ⊎ ((provided (headers.get csrf_header) form.csrf ≡ session.csrf)
            × (fresh_enough app.crates.views.crates.jiff session app.cfg.auth.step_up_max_age now
                ≡ true)
            × ((record_page app w session headers name form now).0
                ≡ (record_checked app w session name form now).0))
  unfolding record_page
  record_page-change form =
      elim (Result-cases (check_csrf session (headers.get csrf_header) form.csrf)) [
        | inr (e, p) ↦ inl (ground arith)
        | inl (u, p) ↦
            let (to, from) = check_csrf_iff session (headers.get csrf_header) form.csrf in
            elim (Bool-cases (
              fresh_enough app.crates.views.crates.jiff session app.cfg.auth.step_up_max_age now)) [
                | inl fresh ↦ inr (to p, fresh, ground arith)
                | inr stale ↦ inl (ground arith)
              ]
      ]

  pub rotate_page-change :
      (form : RotateForm)
      → ((rotate_page app w session headers name form now).0 ≡ w)
        ⊎ ((provided (headers.get csrf_header) form.csrf ≡ session.csrf)
            × ((rotate_page app w session headers name form now).0
                ≡ (rotate_checked app w session name form now).0))
  unfolding rotate_page
  rotate_page-change form =
      elim (Result-cases (check_csrf session (headers.get csrf_header) form.csrf)) [
        | inr (e, p) ↦ inl (ground arith)
        | inl (u, p) ↦
            let (to, from) = check_csrf_iff session (headers.get csrf_header) form.csrf in
            inr (to p, ground arith)
      ]
