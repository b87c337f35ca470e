-- ===== src/Session.antt =====
-- Sessions (src/web/auth.rs) and the errors of pages (`AppError` of src/web/mod.rs): expiry, step-up,
-- the CSRF token and who may act. A cookie is taken as the value that it decrypts and parses to.
pub mod Bits
pub mod Access
mod Examples
use you_spin_me.Prelude.{
  ℕ, ◌+◌, Bool, true, false, not, ◌&&◌, Option, none, some, List, [], ◌∷◌, length, if◌then◌else◌,
  Result, ok, err, unwrap_or, Bytes, codes, ◌==◌, ℤ, pos, ◌+ℤ◌, ◌-ℤ◌, leb_ℤ, wrap_i64,
}
use Prim.Native.Nat.{bit_or, bit_xor}
use you_spin_me.Time.{Timestamp, SignedDuration, Jiff}
use you_spin_me.Crd.{Actor}

pub data AppError : Type 0 where
  not_found bad_request unauthorized forbidden upstream internal : Bytes → AppError

-- The status of the response.
abbrev pub status_of : AppError → ℕ
status_of (not_found m) = 404
status_of (bad_request m) = 400
status_of (unauthorized m) = 401
status_of (forbidden m) = 403
status_of (upstream m) = 502
status_of (internal m) = 500

abbrev pub clock_skew_secs : ℤ
clock_skew_secs = pos 60

pub record Session : Type 0 where
  pub sub : Bytes
  pub name : Bytes
  pub admin : Bool
  pub csrf : Bytes
  pub auth_time : Option ℤ
  pub exp : ℤ

unfoldable pub is_expired : Jiff → Session → Timestamp → Bool
is_expired jiff s now = leb_ℤ s.exp (jiff.as_second now)

abbrev pub actor : Session → Actor
actor s = record { sub = s.sub; name = s.name }

-- Was this login, at a second `t`, recent enough at the second `now`? All are `i64`, whose sums wrap,
-- as they do in a release build.
abbrev pub is_recent : ℤ → ℤ → ℤ → Bool
is_recent t now age =
    leb_ℤ t (wrap_i64 (now +ℤ clock_skew_secs))
    && leb_ℤ (wrap_i64 (now -ℤ t)) (wrap_i64 (age +ℤ clock_skew_secs))

unfoldable pub fresh_enough : Jiff → Session → Option SignedDuration → Timestamp → Bool
fresh_enough jiff s none now = true
fresh_enough jiff s (some age) now = elim s.auth_time [
  | none ↦ false
  | some t ↦ is_recent t (jiff.as_second now) (jiff.as_secs age)
]

-- The fold over the pairs of bytes, with what is gathered so far.
unfoldable pub differences : ℕ → Bytes → Bytes → ℕ
differences acc [] b = acc
differences acc (x ∷ a) [] = acc
differences acc (x ∷ a) (y ∷ b) = differences (bit_or acc (bit_xor x y)) a b

unfoldable pub constant_time_eq : Bytes → Bytes → Bool
constant_time_eq a b = if not (length a == length b) then false else differences 0 a b == 0

-- The header's value if there is one, else the form's, else the empty text.
abbrev pub provided : Option Bytes → Option Bytes → Bytes
provided (some header) form_token = header
provided none form_token = unwrap_or form_token []

unfoldable pub check_csrf : Session → Option Bytes → Option Bytes → Result AppError (Unit {0})
check_csrf s header form_token =
    if constant_time_eq (provided header form_token) s.csrf
    then ok tt
    else err (forbidden (codes "invalid or missing CSRF token"))

pub data AuthRejection : Type 0 where
  login htmx_login : Bytes → AuthRejection
  denied failed : AuthRejection

-- `InsecureDev`, or OpenID Connect.
pub data Mode : Type 0 where
  insecure_dev : Bytes → Mode
  oidc : Mode

-- Of a request: the path and query, and for a fragment the path of the page it belongs to.
pub record Asked : Type 0 where
  pub path_and_query : Option Bytes
  pub hx_request : Bool
  pub hx_current_path : Option Bytes

abbrev pub rejection_of : Asked → AuthRejection
rejection_of q =
    let next = unwrap_or q.path_and_query (codes "/") in
    if q.hx_request then htmx_login (unwrap_or q.hx_current_path next) else login next

-- `User::from_request_parts`; `cookie` is the session of the jar if it decrypts and parses.
unfoldable pub user_of :
    Jiff → Mode → Asked → Option Session → Timestamp → Result AuthRejection Session
user_of jiff (insecure_dev csrf) q cookie now = ok (record {
  sub = codes "dev";
  name = codes "dev-admin";
  admin = true;
  csrf = csrf;
  auth_time = some (jiff.as_second now);
  exp = jiff.as_second now +ℤ pos 3600;
})
user_of jiff oidc q none now = err (rejection_of q)
user_of jiff oidc q (some s) now =
    if not (is_expired jiff s now) then ok s else err (rejection_of q)

-- `Admin::from_request_parts`
unfoldable pub admin_of :
    Jiff → Mode → Asked → Option Session → Timestamp → Result AuthRejection Session
admin_of jiff mode q cookie now = elim (user_of jiff mode q cookie now) [
  | err e ↦ err e
  | ok s ↦ if s.admin then ok s else err denied
]
