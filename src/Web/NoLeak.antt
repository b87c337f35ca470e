-- ===== src/Web/NoLeak.antt =====
-- The submitted key's value shows in no response and leaves no trace: every route, with the middleware.
use you_spin_me.Prelude.{◌≡◌, refl, Option-cases, inl, inr, ap, Bool-cases, is_nil, Bytes, trim}
use you_spin_me.Time.{Timestamp}
use you_spin_me.Crd.{TargetSpec, Provider}
use you_spin_me.Metrics.{Metrics}
use you_spin_me.Login.{Jar}
use you_spin_me.Rotator.{World}
use you_spin_me.Rotator.Blind.{world}
use you_spin_me.Pages.Listing.{show_index}
use you_spin_me.Pages.Actions.{show_detail, record_page, record_checked}
use you_spin_me.Web.{Site, Visit, Response, is_safe, same_origin, security_headers}
use you_spin_me.Web.Routes.{
  Route, at_index, at_key, at_record, at_rotate, at_login, at_callback, at_logout, at_asset,
  nowhere, route_of,
}
use you_spin_me.Web.Serving.{
  origin, gets, posts, answer, is_get, is_post, kept, serve_index, serve_key, serve_record,
  serve_login, serve_callback, logout, handle, origin_check, serve,
}
use you_spin_me.Session.{Session}
use you_spin_me.Rotator.Blind.{Alike}
use you_spin_me.Pages.Forms.{RecordForm}
use you_spin_me.Pages.Changes.{record_page-cases, record_checked-store}
use you_spin_me.Web.FormPages.{with_form-related}
use you_spin_me.Web.Blind.{keyed, AlikeServed, serve_rotate_blind}

module _ {T R W : Type 0} (site : Site T R W) (Sim : W → W → Type 0) (v v' : Bytes) (r : R)
    (m : Metrics) (s s' : W) (alike : Sim s s') (x : Visit) (asked now : Timestamp) where
  abbrev w : World R W
  w = world r m s

  abbrev w' : World R W
  w' = world r m s'

  abbrev y : Visit
  y = keyed x v

  abbrev y' : Visit
  y' = keyed x v'

  gets-AlikeServed :
      (a a' : Jar × Response) → a ≡ a' → AlikeServed Sim (gets site w y a) (gets site w' y' a')
  gets-AlikeServed a a' h = elim (Bool-cases (is_get x.method)) [
    | inl b ↦
        rw b (
          ap (λ (e : Jar × Response). e.1) h,
          ap (λ (e : Jar × Response). e.0) h,
          refl,
          refl,
          alike,
        )
    | inr b ↦ rw b (refl, refl, refl, refl, alike)
  ]

  posts-AlikeServed :
      (a a' : World R W × Jar × Response)
      → AlikeServed Sim a a'
      → AlikeServed Sim (posts site w y a) (posts site w' y' a')
  posts-AlikeServed a a' h = elim (Bool-cases (is_post x.method)) [
    | inl b ↦ rw b h
    | inr b ↦ rw b (refl, refl, refl, refl, alike)
  ]

  serve_index-same : serve_index site w y asked now ≡ serve_index site w' y' asked now
  unfolding serve_index show_index
  serve_index-same = refl

  serve_key-same :
      (raw : Bytes) → serve_key site w y raw asked now ≡ serve_key site w' y' raw asked now
  unfolding serve_key show_detail
  serve_key-same raw = refl

  module _ (session : Session) (name : Bytes) (form : RecordForm) where
    record_checked-Alike :
        Alike Sim
          (record_checked site.app w session name form now)
          (record_checked site.app w' session name form now)
    record_checked-Alike =
        let (r', m', result, h) = record_checked-store site.app session name now r m form in
        rw (h s, h s') (refl, refl, refl, alike)

    record_page-Alike :
        Alike Sim
          (record_page site.app w session x.headers name form now)
          (record_page site.app w' session x.headers name form now)
    record_page-Alike = elim (record_page-cases site.app session x.headers name now form) [
      | inl (result, h) ↦ rw (h w, h w') (refl, refl, refl, alike)
      | inr h ↦ rw (h w, h w') record_checked-Alike
    ]

  serve_record-Alike :
      (raw : Bytes)
      → Alike Sim (serve_record site w y raw asked now) (serve_record site w' y' raw asked now)
  unfolding serve_record
  serve_record-Alike raw =
      with_form-related site raw asked (Alike Sim) w w' y y' refl (λ res. (refl, refl, refl, alike))
        x.record_form x.record_form
        (λ session name form. record_page site.app w session x.headers name form now)
        (λ session name form. record_page site.app w' session x.headers name form now)
        (elim (Option-cases x.record_form) [
          | inl f ↦ inl (f, f)
          | inr (form, f) ↦ inr (
            form,
            form,
            f,
            f,
            λ session name.
                let (reply, repos, counts, stores) = record_page-Alike session name form in
                (ap (answer site) reply, repos, counts, stores),
          )
        ])

  serve_login-same : serve_login site y now ≡ serve_login site y' now
  unfolding serve_login
  serve_login-same = refl

  serve_callback-same : serve_callback site y now ≡ serve_callback site y' now
  unfolding serve_callback
  serve_callback-same = refl

  logout-same : logout site y asked ≡ logout site y' asked
  unfolding logout
  logout-same = refl

  kept-AlikeServed :
      (a a' : World R W × Response)
      → Alike Sim a a'
      → AlikeServed Sim (posts site w y (kept site y a)) (posts site w' y' (kept site y' a'))
  kept-AlikeServed a a' (res, repos, counts, stores) =
      posts-AlikeServed (kept site y a) (kept site y' a') (res, refl, repos, counts, stores)

  module _
      (writer_blind : (s s' : W) (t : TargetSpec)
        → Sim s s'
        → ((site.app.rotator.writer.write s t v).1 ≡ (site.app.rotator.writer.write s' t v').1)
          × Sim (site.app.rotator.writer.write s t v).0 (site.app.rotator.writer.write s' t v').0)
      (prober_blind : (p : Provider) → site.app.rotator.prober p v ≡ site.app.rotator.prober p v')
      (blank_alike : is_nil (trim v) ≡ is_nil (trim v')) where
    handle_blind :
        (route : Route)
        → AlikeServed Sim
            (handle site (world r m s) (keyed x v) route asked now)
            (handle site (world r m s') (keyed x v') route asked now)
    unfolding handle
    handle_blind at_index = gets-AlikeServed _ _ (ap (λ res. (x.jar, res)) (serve_index-same))
    handle_blind (at_key raw) = gets-AlikeServed _ _ (ap (λ res. (x.jar, res)) (serve_key-same raw))
    handle_blind (at_record raw) = kept-AlikeServed _ _ (serve_record-Alike raw)
    handle_blind (at_rotate raw) = kept-AlikeServed _ _ (
        serve_rotate_blind site Sim v v' writer_blind prober_blind blank_alike r m s s' alike x raw
          asked now)
    handle_blind at_login = gets-AlikeServed _ _ (serve_login-same)
    handle_blind at_callback = gets-AlikeServed _ _ (serve_callback-same)
    handle_blind at_logout = posts-AlikeServed _ _ (
      ap (λ (e : Jar × Response). e.1) logout-same,
      ap (λ (e : Jar × Response). e.0) logout-same,
      refl,
      refl,
      alike,
    )
    handle_blind (at_asset raw) = gets-AlikeServed _ _ refl
    handle_blind nowhere = (refl, refl, refl, refl, alike)

    -- Two runs of the program on one request, with two keys in its form, over stores that cannot be told
    -- apart from outside: if the writer's answers and the prober's are the same for both keys, and both
    -- or neither are blank, then the response, the cookies, the repository with its audit events and the
    -- metrics are the same, and the stores cannot be told apart.
    pub serve_blind :
        AlikeServed Sim
          (serve site (world r m s) (keyed x v) asked now)
          (serve site (world r m s') (keyed x v') asked now)
    unfolding serve origin_check
    serve_blind =
        let (res, jar, repos, counts, stores) = handle_blind (route_of x.path) in
        elim (Bool-cases (is_safe x.method)) [
          | inl b ↦ rw b (ap (security_headers x.path) res, jar, repos, counts, stores)
          | inr b ↦ elim (Bool-cases (same_origin x.origin (origin site))) [
            | inl o ↦ rw b (rw o (ap (security_headers x.path) res, jar, repos, counts, stores))
            | inr o ↦ rw b (rw o (refl, refl, refl, refl, alike))
          ]
        ]
