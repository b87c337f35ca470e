-- ===== src/Web/Blind.antt =====
-- The submitted key's value shows in no response, and leaves no trace in what the program keeps: the
-- whole path from the form to the targets.
use you_spin_me.Prelude.{
  ◌≡◌, refl, inl, inr, ap, arith, Option, none, some, map_option, Option-cases, Result-cases, List,
  [], unwrap_or, Result, ok, err, is_nil, Bytes, trim,
}
use you_spin_me.Time.{Timestamp}
use you_spin_me.Crd.{TargetSpec, Provider}
use you_spin_me.Metrics.{Metrics}
use you_spin_me.Session.{AppError, Session, check_csrf}
use you_spin_me.Rotation.{RotateOutcome, RotateError}
use you_spin_me.Rotator.{World, rotate}
use you_spin_me.Rotator.Blind.{Alike, world, rotate_blind}
use you_spin_me.Pages.{App, Reply, Headers, rendered, rotate_result}
use you_spin_me.Pages.Forms.{parse_date, RotateForm, show_rotate_error}
use you_spin_me.Pages.Actions.{
  csrf_header, request_of, result_of, outcome_headers, rotate_checked, rotate_page,
}
use you_spin_me.Web.{Site, Visit, Response}
use you_spin_me.Login.{Jar}
use you_spin_me.Web.FormPages.{with_form-related}
use you_spin_me.Web.Serving.{answer, serve_rotate}

abbrev pub with_key : RotateForm → Bytes → RotateForm
with_key form v = record form { key = v }

module _ {R W : Type 0} (app : App R W) where
  abbrev pub consumers_of : Bytes → R → List Bytes
  consumers_of name r =
      unwrap_or (map_option (λ k. k.spec.consumers) (app.rotator.repository.get r name)) []

  -- The page of a rotation's result.
  abbrev pub shown : Bytes → List Bytes → Result RotateError RotateOutcome → Result AppError Reply
  shown name consumers (err e) = rendered app.crates [] (
      rotate_result
        (result_of app name consumers (show_rotate_error app.crates.views.crates.debug e) none))
  shown name consumers (ok o) =
      rendered app.crates (outcome_headers app o)
        (rotate_result (result_of app name consumers [] (some o)))

  pub rotate_checked-shown :
      (w : World R W) (session : Session) (name : Bytes) (form : RotateForm) (now : Timestamp)
      (d : Option Timestamp)
      → parse_date app.crates form.expires_at ≡ ok d
      → rotate_checked app w session name form now ≡ (
        (rotate app.rotator w name (request_of app session form d) now).0,
        shown name
            (consumers_of name w.repo)
            (rotate app.rotator w name (request_of app session form d) now).1,
      )
  unfolding rotate_checked
  rotate_checked-shown w session name form now d h = rw (h, rotate_checked) (ground arith)

-- The request with another key in its form.
abbrev pub keyed : Visit → Bytes → Visit
keyed x v = record x { rotate_form = map_option (λ f. with_key f v) x.rotate_form }

-- Two answers that neither a client nor an observer of what the program keeps can tell apart.
abbrev pub AlikeServed :
    {R W : Type 0}
    → (W → W → Type 0)
    → World R W × Jar × Response
    → World R W × Jar × Response
    → Type 0
AlikeServed Sim a b =
    (a.2 ≡ b.2)
    × (a.1 ≡ b.1)
    × (a.0.repo ≡ b.0.repo)
    × (a.0.metrics ≡ b.0.metrics)
    × Sim a.0.store b.0.store

module _ {T R W : Type 0} (site : Site T R W) (Sim : W → W → Type 0) (v v' : Bytes)
    (writer_blind : (s s' : W) (t : TargetSpec)
      → Sim s s'
      → ((site.app.rotator.writer.write s t v).1 ≡ (site.app.rotator.writer.write s' t v').1)
        × Sim (site.app.rotator.writer.write s t v).0 (site.app.rotator.writer.write s' t v').0)
    (prober_blind : (p : Provider) → site.app.rotator.prober p v ≡ site.app.rotator.prober p v')
    (blank_alike : is_nil (trim v) ≡ is_nil (trim v')) (r : R) (m : Metrics) (s s' : W)
    (alike : Sim s s') where
  rotate_checked_blind :
      (session : Session) (name : Bytes) (form : RotateForm) (now : Timestamp)
      → Alike Sim
          (rotate_checked site.app (world r m s) session name (with_key form v) now)
          (rotate_checked site.app (world r m s') session name (with_key form v') now)
  unfolding rotate_checked
  rotate_checked_blind session name form now =
      elim (Result-cases (parse_date site.app.crates form.expires_at)) [
        | inr (e, p) ↦ rw (p, rotate_checked) (refl, refl, refl, alike)
        | inl (d, p) ↦
            let (result, repos, counts, stores) =
              rotate_blind site.app.rotator Sim v v' writer_blind prober_blind blank_alike r m s s'
                name (request_of site.app session (with_key form v) d) now alike in
            rw
              (
                rotate_checked-shown site.app (world r m s) session name (with_key form v) now d p,
                rotate_checked-shown site.app (world r m s') session name (with_key form v') now d
                    p,
              )
              (
                ap (shown site.app name (consumers_of site.app name r)) result,
                repos,
                counts,
                stores,
              )
      ]

  rotate_page_blind :
      (session : Session) (headers : Headers) (name : Bytes) (form : RotateForm) (now : Timestamp)
      → Alike Sim
          (rotate_page site.app (world r m s) session headers name (with_key form v) now)
          (rotate_page site.app (world r m s') session headers name (with_key form v') now)
  unfolding rotate_page
  rotate_page_blind session headers name form now =
      elim (Result-cases (check_csrf session (headers.get csrf_header) form.csrf)) [
        | inr (e, p) ↦ rw (p, rotate_page) (refl, refl, refl, alike)
        | inl (u, p) ↦ rw (p, rotate_page) (rotate_checked_blind session name form now)
      ]

  pub serve_rotate_blind :
      (x : Visit) (raw : Bytes) (asked now : Timestamp)
      → Alike Sim
          (serve_rotate site (world r m s) (keyed x v) raw asked now)
          (serve_rotate site (world r m s') (keyed x v') raw asked now)
  unfolding serve_rotate
  serve_rotate_blind x raw asked now =
      with_form-related site raw asked (Alike Sim) (world r m s) (world r m s') (keyed x v)
        (keyed x v') refl (λ res. (refl, refl, refl, alike)) (keyed x v).rotate_form
        (keyed x v').rotate_form
        (λ session name form. rotate_page site.app (world r m s) session x.headers name form now)
        (λ session name form. rotate_page site.app (world r m s') session x.headers name form now)
        (elim (Option-cases x.rotate_form) [
          | inl f ↦ inl (rw f refl, rw f refl)
          | inr (form, f) ↦ inr (
            with_key form v,
            with_key form v',
            rw f refl,
            rw f refl,
            λ session name.
                let (reply, repos, counts, stores) =
                  rotate_page_blind session x.headers name form now in
                (ap (answer site) reply, repos, counts, stores),
          )
        ])
