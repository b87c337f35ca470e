-- ===== src/Web/Completes.antt =====
-- The requests that succeed: the other half of Web/Guarded.
use you_spin_me.Prelude.{◌≡◌, refl, ap, ◌∙◌, true, some, ok, Result, Bytes, bytes_eq_refl}
use you_spin_me.Time.{Timestamp}
use you_spin_me.Session.{AppError, Session, provided, fresh_enough}
use you_spin_me.Login.{Jar}
use you_spin_me.Rotator.{World}
use you_spin_me.Pages.{Reply}
use you_spin_me.Pages.Forms.{RecordForm, RotateForm}
use you_spin_me.Pages.Actions.{
  csrf_header, record_page, record_checked, rotate_page, rotate_checked,
}
use you_spin_me.Pages.Changes.{record_page-checked, rotate_page-checked}
use you_spin_me.Web.{Site, Visit, Response, post, security_headers}
use you_spin_me.Web.Routes.{at_record, at_rotate, route_of}
use you_spin_me.Web.Serving.{
  admin, answer, origin, jiff, kept, serve_record, serve_rotate, handle, origin_check, serve,
}
use you_spin_me.Web.FormPages.{form-page}

module _ {T R W : Type 0} (site : Site T R W) (w : World R W) (x : Visit) (asked now : Timestamp)
    (posted : x.method ≡ post) (near : x.origin ≡ some (origin site)) where
  -- A POST from the public origin is handled.
  serve-posted : serve site w x asked now ≡ (
    (handle site w x (route_of x.path) asked now).0,
    (handle site w x (route_of x.path) asked now).1,
    security_headers x.path (handle site w x (route_of x.path) asked now).2,
  )
  unfolding serve origin_check
  serve-posted = rw (posted, near) (rw (bytes_eq_refl (origin site)) refl)

  -- The answer of the handler, with the headers.
  serve-handled :
      (w' : World R W) (jar : Jar) (res : Response)
      → handle site w x (route_of x.path) asked now ≡ (w', jar, res)
      → serve site w x asked now ≡ (w', jar, security_headers x.path res)
  serve-handled w' jar res h =
      serve-posted
      ∙ ap (λ (a : World R W × Jar × Response). (a.0, a.1, security_headers x.path a.2)) h

  handle_record :
      (raw : Bytes)
      → route_of x.path ≡ at_record raw
      → handle site w x (route_of x.path) asked now
        ≡ kept site x (serve_record site w x raw asked now)
  unfolding handle
  handle_record raw routed = rw (routed, posted) refl

  handle_rotate :
      (raw : Bytes)
      → route_of x.path ≡ at_rotate raw
      → handle site w x (route_of x.path) asked now
        ≡ kept site x (serve_rotate site w x raw asked now)
  unfolding handle
  handle_rotate raw routed = rw (routed, posted) refl

  module _ (raw name : Bytes) (session : Session) (rights : admin site x asked ≡ ok session)
      (named : site.axum.decoded raw ≡ some name) where
    pub served_record :
        (form : RecordForm)
        → route_of x.path ≡ at_record raw
        → x.record_form ≡ some form
        → provided (x.headers.get csrf_header) form.csrf ≡ session.csrf
        → fresh_enough (jiff site) session site.app.cfg.auth.step_up_max_age now ≡ true
        → serve site w x asked now ≡ (
          (record_checked site.app w session name form now).0,
          x.jar,
          security_headers x.path (answer site (record_checked site.app w session name form now).1),
        )
    unfolding serve_record
    served_record form routed filled token fresh =
        let checked = record_page-checked site.app w session name now x.headers form token fresh in
        let page =
          form-page site raw asked w x x.record_form
            (λ session name form. record_page site.app w session x.headers name form now) session
            name form rights named filled in
        serve-handled _ _ _ (
          handle_record raw routed
          ∙ ap (kept site x) (
              page
              ∙ ap (λ (a : World R W × Result AppError Reply). (a.0, answer site a.1)) checked))

    pub served_rotate :
        (form : RotateForm)
        → route_of x.path ≡ at_rotate raw
        → x.rotate_form ≡ some form
        → provided (x.headers.get csrf_header) form.csrf ≡ session.csrf
        → serve site w x asked now ≡ (
          (rotate_checked site.app w session name form now).0,
          x.jar,
          security_headers x.path (answer site (rotate_checked site.app w session name form now).1),
        )
    unfolding serve_rotate
    served_rotate form routed filled token =
        let checked = rotate_page-checked site.app w session name now x.headers form token in
        let page =
          form-page site raw asked w x x.rotate_form
            (λ session name form. rotate_page site.app w session x.headers name form now) session
            name form rights named filled in
        serve-handled _ _ _ (
          handle_rotate raw routed
          ∙ ap (kept site x) (
              page
              ∙ ap (λ (a : World R W × Result AppError Reply). (a.0, answer site a.1)) checked))
