-- ===== src/Web.antt =====
-- The HTTP layer (src/web/mod.rs): routes, middleware and the responses of errors. A `Visit` is a
-- request with what the extractors of `axum` read from it; what `axum` itself answers is a parameter.
pub mod Routes
pub mod Serving
pub mod Ops
pub mod Guarded
pub mod Kept
pub mod Series
pub mod Accountable
pub mod Completes
pub mod Recording
pub mod Rotating
pub mod Entries
pub mod Statuses
pub mod Coherent
pub mod FormPages
pub mod Blind
pub mod NoLeak
pub mod Headed
pub mod Sessions
pub mod Browsing
mod Examples
use you_spin_me.Prelude.{
  ℕ, Bool, true, false, not, ◌&&◌, Option, none, some, List, [], ◌∷◌, ◌++◌, is_nil, and_then,
  map_option, unwrap_or, if◌then◌else◌, Result, ok, err, Bytes, codes, bytes_eq, starts_with, split,
  join,
}
use you_spin_me.Session.{
  AppError, not_found, bad_request, unauthorized, forbidden, upstream, internal, status_of, Session,
  Asked, AuthRejection, login, htmx_login, denied, failed,
}
use you_spin_me.Login.{Oidc, Jar, CallbackQuery, Random}
use you_spin_me.Pages
use you_spin_me.Pages.{Filters, ErrorPage, error_page, Reply, Headers, Crates, App}
use you_spin_me.Pages.Forms.{RecordForm, RotateForm, message_of}

pub data Method : Type 0 where
  get head options post other : Method

pub record Response : Type 0 where
  pub status : ℕ
  pub headers : List (Bytes × Bytes)
  pub body : Bytes

-- What `axum` makes of replies, and its own answers: to a method that a route does not have, and to a
-- query, form or path that cannot be read.
pub record Axum : Type 0 where
  pub of_reply : Reply → Response
  pub of_html : ℕ → Bytes → Response
  pub of_text : ℕ → Bytes → Response
  pub method_not_allowed : Response
  pub unreadable : Response
  -- The name in a path, decoded; and the path of a URL.
  pub decoded : Bytes → Option Bytes
  pub url_path : Bytes → Option Bytes
  -- The embedded asset of a path, its type, and the response with these.
  pub embedded : Bytes → Option Bytes
  pub mime_of : Bytes → Bytes
  pub of_asset : List (Bytes × Bytes) → Bytes → Response
  pub asset_missing : Response
  -- The origin of the public URL.
  pub origin_of : Bytes → Bytes

-- The program as it is served: `T` is what the identity provider answers.
pub record Site (T R W : Type 0) : Type 0 where
  pub app : App R W
  pub oidc : Oidc T
  pub axum : Axum

pub record LoginQuery : Type 0 where
  pub next : Option Bytes
  pub reauth : Bool

-- A request. The forms and queries are none where they cannot be read; `random` and `csrf` are drawn
-- for it.
pub record Visit : Type 0 where
  pub method : Method
  pub path : Bytes
  pub path_and_query : Option Bytes
  pub origin : Option Bytes
  pub headers : Headers
  pub jar : Jar
  pub plain_jar : Bytes → Option Bytes
  pub filters : Option Filters
  pub notice : Option Bytes
  pub record_form : Option RecordForm
  pub rotate_form : Option RotateForm
  pub logout_form : Option (Option Bytes)
  pub login_query : Option LoginQuery
  pub callback_query : Option CallbackQuery
  pub random : Random
  pub csrf : Bytes

abbrev pub title_of : AppError → Bytes
title_of (not_found m) = codes "Not found"
title_of (bad_request m) = codes "Bad request"
title_of (unauthorized m) = codes "Login failed"
title_of (forbidden m) = codes "Forbidden"
title_of (upstream m) = codes "Upstream error"
title_of (internal m) = codes "Something went wrong"

-- `AppError::into_response`: its page, or the plain message if that has no template.
unfoldable pub error_response : Axum → Crates → AppError → Response
error_response axum crates e =
    elim (crates.render
      (error_page (record { status = status_of e; title = title_of e; message = message_of e }))) [
        | ok text ↦ axum.of_html (status_of e) text
        | err x ↦ axum.of_text (status_of e) (message_of e)
      ]

abbrev pub login_url : Crates → Bytes → Bytes
login_url crates next = codes "/auth/login?next=" ++ crates.urlencode next

-- `AuthRejection::into_response`
unfoldable pub rejection_response : Axum → Crates → AuthRejection → Response
rejection_response axum crates (login next) = axum.of_reply (Pages.redirect (login_url crates next))
rejection_response axum crates (htmx_login next) = record {
  status = 401;
  headers = (codes "HX-Redirect", login_url crates next) ∷ [];
  body = [];
}
rejection_response axum crates denied =
    error_response axum crates (forbidden (codes "this action needs admin rights"))
rejection_response axum crates failed =
    error_response axum crates (internal (codes "session error"))

-- `headers.insert`: the value replaces the others of its name.
unfoldable pub set_header : Bytes → Bytes → List (Bytes × Bytes) → List (Bytes × Bytes)
set_header name value [] = (name, value) ∷ []
set_header name value ((n, v) ∷ more) =
    let rest = set_header name value more in if bytes_eq n name then rest else (n, v) ∷ rest

abbrev pub csp : Bytes
csp =
    codes
      "default-src 'self'; script-src 'self'; style-src 'self'; img-src 'self' data:; connect-src 'self'; font-src 'self'; frame-ancestors 'none'; base-uri 'none'; form-action 'self'"

-- `security_headers`, of a response to a path.
unfoldable pub security_headers : Bytes → Response → Response
security_headers path res =
    let guarded = set_header (codes "referrer-policy") (codes "same-origin") (
      set_header (codes "x-frame-options") (codes "DENY") (
        set_header (codes "x-content-type-options") (codes "nosniff")
          (set_header (codes "content-security-policy") csp res.headers))) in
    record res {
      headers =
          if not (starts_with path (codes "/assets/"))
          then set_header (codes "cache-control") (codes "no-store") guarded
          else guarded;
    }

abbrev pub is_safe : Method → Bool
is_safe get = true
is_safe head = true
is_safe options = true
is_safe post = false
is_safe other = false

abbrev pub same_origin : Option Bytes → Bytes → Bool
same_origin none public = false
same_origin (some o) public = bytes_eq o public

-- `User` reads these of a request.
abbrev pub asked_of : Axum → Visit → Asked
asked_of axum v = record {
  path_and_query = v.path_and_query;
  hx_request = v.headers.contains_key (codes "hx-request");
  hx_current_path = and_then (v.headers.get (codes "hx-current-url")) axum.url_path;
}
