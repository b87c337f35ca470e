-- ===== src/Web/Serving.antt =====
-- The handlers behind the routes, and the middleware around them (src/web/mod.rs, and `logout` of
-- src/web/auth.rs). A handler's extractors run in the order of its arguments. The clock is read once
-- by them (`asked`), and once by the handler (`now`).
use you_spin_me.Prelude.{
  Bool, true, false, Option, none, some, [], ◌∷◌, ◌++◌, if◌then◌else◌, Result, ok, err, Bytes,
  codes,
}
use you_spin_me.Time.{Timestamp, Jiff}
use you_spin_me.Session.{
  AppError, not_found, forbidden, Session, AuthRejection, user_of, admin_of, check_csrf,
}
use you_spin_me.Login
use you_spin_me.Login.{Jar}
use you_spin_me.Config.{public_origin}
use you_spin_me.Rotator.{World}
use you_spin_me.Pages.{Reply, redirect}
use you_spin_me.Pages.Listing.{show_index}
use you_spin_me.Pages.Actions.{csrf_header, show_detail, record_page, rotate_page}
use you_spin_me.Web.{
  Method, get, head, options, post, other, Response, Site, Visit, error_response,
  rejection_response, security_headers, is_safe, same_origin, asked_of,
}
use you_spin_me.Web.Routes.{
  Route, at_index, at_key, at_record, at_rotate, at_login, at_callback, at_logout, at_asset,
  nowhere, route_of,
}

-- `get(…)` also serves HEAD.
abbrev pub is_get : Method → Bool
is_get get = true
is_get head = true
is_get options = false
is_get post = false
is_get other = false

abbrev pub is_post : Method → Bool
is_post post = true
is_post get = false
is_post head = false
is_post options = false
is_post other = false

-- `{:?}` of an optional text.
abbrev pub debug_option : (debug : Bytes → Bytes) → Option Bytes → Bytes
debug_option debug none = codes "None"
debug_option debug (some o) = codes "Some(" ++ (debug o ++ codes ")")

module _ {T R W : Type 0} (site : Site T R W) where
  abbrev pub jiff : Jiff
  jiff = site.app.crates.views.crates.jiff

  abbrev pub origin : Bytes
  origin = public_origin site.axum.origin_of site.app.cfg

  -- A handler's result, or the page of its error.
  abbrev pub answer : Result AppError Reply → Response
  answer (ok reply) = site.axum.of_reply reply
  answer (err e) = error_response site.axum site.app.crates e

  abbrev pub reject : AuthRejection → Response
  reject = rejection_response site.axum site.app.crates

  -- The extractors of a user and of an admin.
  abbrev pub user : Visit → Timestamp → Result AuthRejection Session
  user v asked = user_of jiff site.app.mode (asked_of site.axum v) v.jar.session asked

  abbrev pub admin : Visit → Timestamp → Result AuthRejection Session
  admin v asked = admin_of jiff site.app.mode (asked_of site.axum v) v.jar.session asked

  unfoldable pub serve_index : World R W → Visit → (asked now : Timestamp) → Response
  serve_index w v asked now = elim (user v asked) [
    | err e ↦ reject e
    | ok session ↦ elim v.filters [
      | none ↦ site.axum.unreadable
      | some filters ↦ answer (show_index site.app w session v.plain_jar v.headers filters now)
    ]
  ]

  unfoldable pub serve_key : World R W → Visit → Bytes → (asked now : Timestamp) → Response
  serve_key w v raw asked now = elim (user v asked) [
    | err e ↦ reject e
    | ok session ↦ elim (site.axum.decoded raw) [
      | none ↦ site.axum.unreadable
      | some name ↦ elim v.notice [
        | none ↦ site.axum.unreadable
        | some notice ↦ answer (show_detail site.app w session v.plain_jar name notice now)
      ]
    ]
  ]

  -- The page of an admin, with the name of the path and its form.
  abbrev pub with_form :
      {F : Type 0}
      → World R W
      → Visit
      → Bytes
      → Option F
      → Timestamp
      → (Session → Bytes → F → World R W × Result AppError Reply)
      → World R W × Response
  with_form w v raw form asked run = elim (admin v asked) [
    | err e ↦ (w, reject e)
    | ok session ↦ elim (site.axum.decoded raw) [
      | none ↦ (w, site.axum.unreadable)
      | some name ↦ elim form [
        | none ↦ (w, site.axum.unreadable)
        | some f ↦ let (w', result) = run session name f in (w', answer result)
      ]
    ]
  ]

  unfoldable pub serve_record :
      World R W → Visit → Bytes → (asked now : Timestamp) → World R W × Response
  serve_record w v raw asked now =
      with_form w v raw v.record_form asked
        (λ session name form. record_page site.app w session v.headers name form now)

  unfoldable pub serve_rotate :
      World R W → Visit → Bytes → (asked now : Timestamp) → World R W × Response
  serve_rotate w v raw asked now =
      with_form w v raw v.rotate_form asked
        (λ session name form. rotate_page site.app w session v.headers name form now)

  -- The jar and the redirect of `login` and `callback`.
  abbrev pub redirected : Jar → Result AppError (Jar × Bytes) → Jar × Response
  redirected jar (err e) = (jar, answer (err e))
  redirected jar (ok (jar', url)) = (jar', answer (ok (redirect url)))

  unfoldable pub serve_login : Visit → (now : Timestamp) → Jar × Response
  serve_login v now = elim v.login_query [
    | none ↦ (v.jar, site.axum.unreadable)
    | some q ↦
        redirected v.jar
          (Login.login site.oidc jiff site.app.mode q.next q.reauth v.random v.jar now)
  ]

  unfoldable pub serve_callback : Visit → (now : Timestamp) → Jar × Response
  serve_callback v now = elim v.callback_query [
    | none ↦ (v.jar, site.axum.unreadable)
    | some q ↦ redirected v.jar (
        Login.callback site.oidc jiff site.app.mode (jiff.as_secs site.app.cfg.auth.session_ttl)
          v.csrf q v.jar now)
  ]

  -- `logout`: the session's cookie is removed.
  unfoldable pub logout : Visit → (asked : Timestamp) → Jar × Response
  logout v asked = elim (user v asked) [
    | err e ↦ (v.jar, reject e)
    | ok session ↦ elim v.logout_form [
      | none ↦ (v.jar, site.axum.unreadable)
      | some form ↦ elim (check_csrf session (v.headers.get csrf_header) form) [
        | err e ↦ (v.jar, answer (err e))
        | ok u ↦ (record v.jar { session = none }, answer (ok (redirect (codes "/"))))
      ]
    ]
  ]

  unfoldable pub asset : Bytes → Response
  asset raw = elim (site.axum.decoded raw) [
    | none ↦ site.axum.unreadable
    | some path ↦ elim (site.axum.embedded path) [
      | none ↦ site.axum.asset_missing
      | some content ↦
          site.axum.of_asset
            ((codes "content-type", site.axum.mime_of path)
              ∷ (codes "cache-control", codes "public, max-age=31536000, immutable")
              ∷ [])
            content
    ]
  ]

  -- A method that the route does not have.
  abbrev pub refused : World R W → Visit → World R W × Jar × Response
  refused w v = (w, v.jar, site.axum.method_not_allowed)

  abbrev pub gets : World R W → Visit → Jar × Response → World R W × Jar × Response
  gets w v (jar, r) = if is_get v.method then (w, jar, r) else refused w v

  abbrev pub posts : World R W → Visit → World R W × Jar × Response → World R W × Jar × Response
  posts w v r = if is_post v.method then r else refused w v

  abbrev pub kept : Visit → World R W × Response → World R W × Jar × Response
  kept v (w', r) = (w', v.jar, r)

  abbrev pub unmoved : World R W → Jar × Response → World R W × Jar × Response
  unmoved w (jar, r) = (w, jar, r)

  -- The handler of the route.
  unfoldable pub handle :
      World R W → Visit → Route → (asked now : Timestamp) → World R W × Jar × Response
  handle w v at_index asked now = gets w v (v.jar, serve_index w v asked now)
  handle w v (at_key raw) asked now = gets w v (v.jar, serve_key w v raw asked now)
  handle w v (at_record raw) asked now = posts w v (kept v (serve_record w v raw asked now))
  handle w v (at_rotate raw) asked now = posts w v (kept v (serve_rotate w v raw asked now))
  handle w v at_login asked now = gets w v (serve_login v now)
  handle w v at_callback asked now = gets w v (serve_callback v now)
  handle w v at_logout asked now = posts w v (unmoved w (logout v asked))
  handle w v (at_asset raw) asked now = gets w v (v.jar, asset raw)
  handle w v nowhere asked now = (w, v.jar, answer (err (not_found (codes "page not found"))))

  abbrev pub cross_origin : Visit → AppError
  cross_origin v = forbidden (
      codes "cross-origin request rejected (Origin "
      ++ (debug_option site.app.crates.views.crates.debug v.origin
          ++ (codes ", expected " ++ (origin ++ codes ")"))))

  -- `origin_check`
  unfoldable pub origin_check :
      World R W → Visit → (asked now : Timestamp) → World R W × Jar × Response
  origin_check w v asked now =
      if is_safe v.method
      then handle w v (route_of v.path) asked now
      else if same_origin v.origin origin
      then handle w v (route_of v.path) asked now
      else (w, v.jar, answer (err (cross_origin v)))

  -- `router`
  unfoldable pub serve : World R W → Visit → (asked now : Timestamp) → World R W × Jar × Response
  serve w v asked now =
      let (w', jar, r) = origin_check w v asked now in (w', jar, security_headers v.path r)
