-- ===== src/Web/Rotating.antt =====
-- A request that submits a new key is carried out: the program over the in-memory repository.
use you_spin_me.Prelude.{
  ◌≡◌, sym, ap, ◌∙◌, arith, false, Option, some, [], map_option, unwrap_or, ok, Result, is_nil,
  trim, Bytes,
}
use mathlib.Core.Path.{subst₂, ap₂}
use you_spin_me.Time.{Timestamp}
use you_spin_me.Crd.{ApiKey}
use you_spin_me.Session.{AppError, Session, provided}
use you_spin_me.Login.{Jar}
use you_spin_me.Repo.Memory.{MemoryRepository, get}
use you_spin_me.Rotation.{RotateOutcome}
use you_spin_me.Rotator.{World}
use you_spin_me.Rotator.Records.{Records, rotate-Records}
use you_spin_me.Rotator.Returns.{IsUnopposed, rotate-returns}
use you_spin_me.Validation.{validate}
use you_spin_me.Pages.{Reply, rendered, rotate_result}
use you_spin_me.Pages.Forms.{parse_date, RotateForm}
use you_spin_me.Pages.Actions.{csrf_header, request_of, result_of, outcome_headers}
use you_spin_me.Web.{Response, Site, Visit, post, security_headers}
use you_spin_me.Web.Routes.{at_rotate, route_of}
use you_spin_me.Web.Serving.{admin, answer, origin, serve}
use you_spin_me.Web.Accountable.{in_memory}
use you_spin_me.Web.Blind.{shown, rotate_checked-shown}
use you_spin_me.Web.Completes.{served_rotate}

module _ {T W : Type 0} (site : Site T MemoryRepository W) (w : World MemoryRepository W)
    (x : Visit) (asked now : Timestamp) where
  -- A request to submit a new key is carried out, whatever the writes do and however old the login
  -- is: a POST from the public origin, of an admin, with the CSRF token of the session, for a key that is there with a valid spec
  -- and targets; the new value is not blank, the expiry can be read, and verification is skipped, the
  -- provider is the generic one or its probe does not fail. The writer is called with the value for
  -- every target, once and in their order. The answer shows the outcome of every
  -- target, and the status of the key has recorded it; the cookies and the other keys are as before.
  pub serve-rotates :
      (raw name : Bytes) (session : Session) (form : RotateForm) (d : Option Timestamp)
      (key : ApiKey)
      → x.method ≡ post
      → x.origin ≡ some (origin site)
      → route_of x.path ≡ at_rotate raw
      → site.axum.decoded raw ≡ some name
      → admin site x asked ≡ ok session
      → x.rotate_form ≡ some form
      → provided (x.headers.get csrf_header) form.csrf ≡ session.csrf
      → parse_date site.app.crates form.expires_at ≡ ok d
      → get w.repo name ≡ some key
      → is_nil (trim form.key) ≡ false
      → is_nil key.spec.targets ≡ false
      → validate site.app.rotator.crates key.spec site.app.rotator.allowed ≡ []
      → IsUnopposed site.app.rotator.prober key (request_of site.app session form d)
      → (o : RotateOutcome) × ((serve (in_memory site) w x asked now).2
          ≡ security_headers x.path (
              answer site (
                rendered site.app.crates
                  (outcome_headers site.app o)
                  (rotate_result (result_of site.app name key.spec.consumers [] (some o))))))
        × ((serve (in_memory site) w x asked now).1 ≡ x.jar)
        × Records site.app.rotator.writer w
            (serve (in_memory site) w x asked now).0
            name
            (request_of site.app session form d)
            now
            key
            o
  serve-rotates raw name session form d key posted near routed named rights filled token dates there
        full targets valid unopposed =
      let r = site.app.rotator in
      let req = request_of site.app session form d in
      let (o, returned) =
        rotate-returns r.crates r.writer r.prober r.allowed w name req now key there full targets
          valid unopposed in
      let (found, here, records) =
        rotate-Records r.crates r.writer r.prober r.allowed w name req now o returned in
      let same : found ≡ key = ground arith in
      let consumers =
        ap (λ k. unwrap_or (map_option (λ (k : ApiKey). k.spec.consumers) k) []) there in
      let served =
        served_rotate (in_memory site) w x asked now posted near raw name session rights named form
          routed filled token in
      let made = rotate_checked-shown (in_memory site).app w session name form now d dates in
      let all =
        served
        ∙ ap
            (λ (a : World MemoryRepository W × Result AppError Reply).
              (a.0, x.jar, security_headers x.path (answer site a.1)))
            made in
      (
        o,
        ap (λ (a : World MemoryRepository W × Jar × Response). a.2) all
            ∙ ap₂
                (λ c result.
                  security_headers x.path (answer site (shown (in_memory site).app name c result)))
                consumers returned,
        ap (λ (a : World MemoryRepository W × Jar × Response). a.1) all,
        subst₂ (λ after k. Records r.writer w after name req now k o)
            (sym (ap (λ (a : World MemoryRepository W × Jar × Response). a.0) all)) same records,
      )
