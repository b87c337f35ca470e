-- ===== src/Login.antt =====
-- The login (src/web/auth.rs): `safe_next`, the claims, `login_auth_time`, `login` and `callback`. The
-- identity provider is a parameter, with the client of `openidconnect` that talks to it; so are the
-- random texts. A cookie is taken as the value that it decrypts and parses to.
mod Payload
pub mod Target
pub mod Admits
pub mod Examples
unfoldable pub use Payload.*
use you_spin_me.Prelude.{
  ℕ, zero, suc, Bool, true, false, not, ◌&&◌, ◌||◌, Option, none, some, List, [], ◌∷◌, ◌++◌,
  if◌then◌else◌, any, Result, ok, err, and_then, unwrap_or, Bytes, codes, bytes_eq, starts_with,
  contains, split, ℤ, pos, ◌+ℤ◌, wrap_i64, ◌-ℤ◌, ltb_ℤ,
}
use you_spin_me.Time.{Timestamp, Jiff}
use you_spin_me.Session.{
  AppError, unauthorized, upstream, internal, clock_skew_secs, Session, constant_time_eq, Mode,
  insecure_dev, oidc,
}

abbrev pub login_ttl_secs : ℤ
login_ttl_secs = pos 600

pub record LoginState : Type 0 where
  pub state : Bytes
  pub nonce : Bytes
  pub pkce_verifier : Bytes
  pub next : Bytes
  pub started : ℤ
  pub exp : ℤ
  pub reauth : Bool

unfoldable pub login_auth_time :
    Jiff → Option ℤ → LoginState → Timestamp → Result AppError (Option ℤ)
login_auth_time jiff claim login now =
    if login.reauth
    then elim claim [
      | none ↦ err (
          unauthorized (
            codes
              "the identity provider did not report auth_time, so the re-login cannot be verified"))
      | some t ↦
          if ltb_ℤ t (login.started -ℤ clock_skew_secs)
            || ltb_ℤ (jiff.as_second now +ℤ clock_skew_secs) t
          then err (unauthorized (codes "the identity provider did not ask you to log in again"))
          else ok (some t)
    ]
    else ok claim

unfoldable pub safe_next : Option Bytes → Bytes
safe_next none = codes "/"
safe_next (some n) =
    if starts_with n (codes "/") && (not (starts_with n (codes "//")) && not (contains b'\\' n))
    then n
    else codes "/"

-- The claims that the client hands out when it has verified an ID token.
pub record Claims : Type 0 where
  pub subject : Bytes
  pub preferred_username : Option Bytes
  pub email : Option Bytes
  pub name : Option Bytes
  pub auth_time : Option ℤ

-- Errors of the code exchange: of the client's set-up, or of the request.
pub data ExchangeError : Type 0 where
  no_endpoint refused : Bytes → ExchangeError

-- `T` is the provider's token response; `random` are the texts that one login draws.
pub record Openid (T : Type 0) : Type 0 where
  pub discover : Result Bytes (Unit {0})
  pub authorize_url : (state nonce challenge : Bytes) → (reauth : Bool) → Bytes
  pub challenge_of : Bytes → Bytes
  pub exchange_code : (code verifier : Bytes) → Result ExchangeError T
  pub id_token : T → Option Bytes
  pub verified_claims : (jwt nonce : Bytes) → Result Bytes Claims
  -- The payload's base64 and JSON.
  pub decode_payload : Bytes → Option Json

-- `Oidc`, its client being the parameter.
pub record Oidc (T : Type 0) : Type 0 where
  pub client : Openid T
  pub admin_claim : Bytes
  pub admin_value : Bytes

-- The cookies, as what they hold.
pub record Jar : Type 0 where
  pub login : Option LoginState
  pub session : Option Session

pub record CallbackQuery : Type 0 where
  pub code : Option Bytes
  pub state : Option Bytes
  pub error : Option Bytes
  pub error_description : Option Bytes

pub record Random : Type 0 where
  pub state : Bytes
  pub nonce : Bytes
  pub pkce_verifier : Bytes

abbrev pub second_part : List Bytes → Option Bytes
second_part [] = none
second_part (a ∷ []) = none
second_part (a ∷ b ∷ more) = some b

abbrev pub user_name : Claims → Bytes
user_name c = unwrap_or c.preferred_username (unwrap_or c.email (unwrap_or c.name c.subject))

module _ {T : Type 0} (self : Oidc T) where
  abbrev discovered : Result AppError (Unit {0})
  discovered = elim self.client.discover [
    | err e ↦ err (upstream (codes "OIDC discovery failed: " ++ e))
    | ok u ↦ ok u
  ]

  abbrev pub decode_jwt_payload : Bytes → Option Json
  decode_jwt_payload jwt = and_then (second_part (split b'.' jwt)) self.client.decode_payload

  -- `unwrap_or_default`: the JSON null.
  abbrev pub is_admin : Bytes → Bool
  is_admin jwt =
      claim_contains (unwrap_or (decode_jwt_payload jwt) plain) self.admin_claim self.admin_value

  -- `login`, up to the redirect to the provider; `random` is drawn for it.
  unfoldable pub login :
      Jiff → Mode → Option Bytes → Bool → Random → Jar → Timestamp → Result AppError (Jar × Bytes)
  login jiff (insecure_dev csrf) next reauth random jar now = ok (jar, safe_next next)
  login jiff oidc next reauth random jar now = elim discovered [
    | err e ↦ err e
    | ok u ↦ ok (
      record jar {
        login = some (record {
          state = random.state;
          nonce = random.nonce;
          pkce_verifier = random.pkce_verifier;
          next = safe_next next;
          started = jiff.as_second now;
          exp = jiff.as_second now +ℤ login_ttl_secs;
          reauth = reauth;
        });
      },
      self.client.authorize_url random.state random.nonce
          (self.client.challenge_of random.pkce_verifier) reauth,
    )
  ]

  -- The code's exchange, and the verified ID token with its claims.
  unfoldable pub identify : Bytes → LoginState → Result AppError (Bytes × Claims)
  identify code login = elim discovered [
    | err e ↦ err e
    | ok u ↦ elim (self.client.exchange_code code login.pkce_verifier) [
      | err (no_endpoint e) ↦ err (internal e)
      | err (refused e) ↦ err (unauthorized (codes "token exchange failed: " ++ e))
      | ok token ↦ elim (self.client.id_token token) [
        | none ↦ err (unauthorized (codes "provider returned no ID token"))
        | some jwt ↦ elim (self.client.verified_claims jwt login.nonce) [
          | err e ↦ err (unauthorized (codes "invalid ID token: " ++ e))
          | ok claims ↦ ok (jwt, claims)
        ]
      ]
    ]
  ]

  -- The checks before anything is asked of the provider.
  unfoldable pub returned :
      Jiff → CallbackQuery → Jar → Timestamp → Result AppError (Bytes × LoginState)
  returned jiff q jar now = elim q.error [
    | some e ↦ err (
        unauthorized
          (codes "login failed: " ++ (e ++ (codes " " ++ unwrap_or q.error_description []))))
    | none ↦ elim jar.login [
      | none ↦ err (unauthorized (codes "login expired, try again"))
      | some login ↦
          if ltb_ℤ login.exp (jiff.as_second now)
          then err (unauthorized (codes "login expired, try again"))
          else if not (constant_time_eq (unwrap_or q.state []) login.state)
          then err (unauthorized (codes "login state mismatch"))
          else elim q.code [
            | none ↦ err (unauthorized (codes "missing authorization code"))
            | some code ↦ ok (code, login)
          ]
    ]
  ]

  abbrev pub session_for :
      Jiff → (ttl : ℤ) → (csrf jwt : Bytes) → Claims → Option ℤ → Timestamp → Session
  session_for jiff ttl csrf jwt claims auth_time now = record {
    sub = claims.subject;
    name = user_name claims;
    admin = is_admin jwt;
    csrf = csrf;
    auth_time = auth_time;
    exp = wrap_i64 (jiff.as_second now +ℤ ttl);
  }

  -- `callback`; `ttl` is the session's in seconds, and `csrf` is drawn for it.
  unfoldable pub callback :
      Jiff
      → Mode
      → (ttl : ℤ) → (csrf : Bytes) → CallbackQuery
      → Jar
      → Timestamp
      → Result AppError (Jar × Bytes)
  callback jiff (insecure_dev c) ttl csrf q jar now = ok (jar, codes "/")
  callback jiff oidc ttl csrf q jar now = elim (returned jiff q jar now) [
    | err e ↦ err e
    | ok (code, login) ↦ elim (identify code login) [
      | err e ↦ err e
      | ok (jwt, claims) ↦ elim (login_auth_time jiff claims.auth_time login now) [
        | err e ↦ err e
        | ok auth_time ↦ ok (
          record {
            login = none;
            session = some (session_for jiff ttl csrf jwt claims auth_time now);
          },
          login.next,
        )
      ]
    ]
  ]
