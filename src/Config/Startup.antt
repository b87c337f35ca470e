-- ===== src/Config/Startup.antt =====
-- What the program makes of its configuration when it starts: `AuthMode::from_config` of
-- src/web/auth.rs, `OpenBao::from_config` of src/targets/openbao.rs, and of src/main.rs the choice of
-- the authentication, `stores` and `load_cookie_key`.
use you_spin_me.Prelude.{
  ◌*◌, [], pos, ◌+ℤ◌, Bool, not, ◌&&◌, ◌||◌, Option, none, some, is_some, and_then, List, ◌++◌,
  keep, length, leb, if◌then◌else◌, Result, ok, err, Bytes, codes, bytes_eq, trim,
}
use you_spin_me.Time.{Timestamp, Jiff}
use you_spin_me.Providers.{Answer}
use you_spin_me.Targets.{MemoryWriter, fail}
use you_spin_me.Session.{Mode}
use you_spin_me.Session
use you_spin_me.OpenBao.{Auth, kubernetes, token_file}
use you_spin_me.Config.{AuthConfig, OpenBaoConfig, Config, trim_end_slashes}

-- Files, randomness and crates. `K` are the keys of the `cookie` crate.
pub record Outside (K : Type 0) : Type 0 where
  pub read_to_string : Bytes → Result Bytes Bytes
  pub read : Bytes → Result Bytes Bytes
  pub from_utf8_lossy : Bytes → Bytes
  pub split_whitespace : Bytes → List Bytes
  pub base64 : Bytes → Option Bytes
  pub http_client : (ca : Option Bytes) → Result Bytes (Unit {0})
  pub issuer_url : Bytes → Result Bytes Bytes
  pub redirect_url : Bytes → Result Bytes Bytes
  pub random_token : Bytes
  pub generate : K
  pub try_key : Bytes → Option K

-- `Oidc`, as it is before its first use.
pub record Settings : Type 0 where
  pub issuer : Bytes
  pub client_id : Bytes
  pub client_secret : Option Bytes
  pub redirect : Bytes
  pub scopes : List Bytes
  pub admin_claim : Bytes
  pub admin_value : Bytes

pub data AuthMode : Type 0 where
  oidc : Settings → AuthMode
  insecure_dev : Bytes → AuthMode

abbrev pub mode_of : AuthMode → Mode
mode_of (oidc s) = Session.oidc
mode_of (insecure_dev csrf) = Session.insecure_dev csrf

infixl 5 ◌>>=◌
abbrev pub ◌>>=◌ : {E A B : Type 0} → Result E A → (A → Result E B) → Result E B
ok a >>= f = f a
err e >>= f = err e

-- The error of a file that cannot be read.
abbrev pub named : {A : Type 0} → Bytes → Result Bytes A → Result Bytes A
named path (ok a) = ok a
named path (err e) = err (codes "reading " ++ (path ++ (codes ": " ++ e)))

abbrev pub is_required : Bytes
is_required =
    codes
      "OIDC is required: set --oidc-issuer and --oidc-client-id (or --insecure-dev-auth for local development)"

module _ {K : Type 0} (outside : Outside K) where
  unfoldable pub client_secret_of : Option Bytes → Result Bytes (Option Bytes)
  client_secret_of none = ok none
  client_secret_of (some path) = elim (named path (outside.read_to_string path)) [
    | ok s ↦ ok (some (trim s))
    | err e ↦ err e
  ]

  -- What follows once an issuer and a client are known.
  unfoldable pub settings_of :
      AuthConfig → (public_url issuer client_id : Bytes) → Result Bytes Settings
  settings_of cfg public_url issuer client_id = do
    client_secret ← client_secret_of cfg.oidc_client_secret_file
    u ← outside.http_client none
    issuer' ← outside.issuer_url (trim_end_slashes issuer)
    redirect ← outside.redirect_url (trim_end_slashes public_url ++ codes "/auth/callback")
    ok (record {
      issuer = issuer';
      client_id = client_id;
      client_secret = client_secret;
      redirect = redirect;
      scopes =
          keep (λ s. not (bytes_eq s (codes "openid"))) (outside.split_whitespace cfg.oidc_scopes);
      admin_claim = cfg.admin_claim;
      admin_value = cfg.admin_value;
    })

  -- `AuthMode::from_config`
  unfoldable pub auth_from_config :
      AuthConfig → (public_url : Bytes) → (force_dev : Bool) → Result Bytes AuthMode
  auth_from_config cfg public_url force_dev =
      if cfg.insecure_dev_auth || force_dev
      then ok (insecure_dev outside.random_token)
      else elim cfg.oidc_issuer [
        | none ↦ err is_required
        | some issuer ↦ elim cfg.oidc_client_id [
          | none ↦ err is_required
          | some client_id ↦ elim (settings_of cfg public_url issuer client_id) [
            | err e ↦ err e
            | ok s ↦ ok (oidc s)
          ]
        ]
      ]

  -- The authentication that `main` chooses.
  unfoldable pub start_auth : Config → Result Bytes AuthMode
  start_auth cfg =
      auth_from_config cfg.auth cfg.public_url (cfg.demo && not (is_some cfg.auth.oidc_issuer))

  abbrev pub auth_of : OpenBaoConfig → Auth
  auth_of cfg = elim cfg.openbao_token_file [
    | some path ↦ token_file path
    | none ↦ kubernetes cfg.openbao_auth_mount cfg.openbao_role cfg.openbao_jwt_file
  ]

  abbrev pub ca_of : OpenBaoConfig → Result Bytes (Option Bytes)
  ca_of cfg = elim cfg.openbao_ca_file [
    | none ↦ ok none
    | some path ↦ elim (named path (outside.read path)) [ ok pem ↦ ok (some pem) | err e ↦ err e ]
  ]

  -- `OpenBao::from_config`, with `OpenBao::new`: an address with how to log in there, or none.
  unfoldable pub openbao_from_config : OpenBaoConfig → Result Bytes (Option (Bytes × Auth))
  openbao_from_config cfg = elim cfg.openbao_addr [
    | none ↦ ok none
    | some addr ↦ do ca ← ca_of cfg; u ← outside.http_client ca; ok (some (addr, auth_of cfg))
  ]

  -- The decoded text, if it is one and long enough.
  abbrev pub decoded_key : Bytes → Option Bytes
  decoded_key raw =
      and_then (outside.base64 (trim (outside.from_utf8_lossy raw)))
        (λ b. if leb 64 (length b) then some b else none)

  abbrev pub key_bytes : Bytes → Bytes
  key_bytes raw = elim (decoded_key raw) [ some b ↦ b | none ↦ raw ]

  unfoldable pub load_cookie_key : Config → Result Bytes K
  load_cookie_key cfg = elim cfg.auth.cookie_key_file [
    | none ↦ ok outside.generate
    | some path ↦ elim (outside.read path) [
      | err e ↦ err (codes "reading " ++ path)
      | ok raw ↦ elim (outside.try_key (key_bytes raw)) [
        | some key ↦ ok key
        | none ↦ err (codes "cookie key must be at least 64 bytes (raw or base64)")
      ]
    ]
  ]

-- What `stores` of src/main.rs chooses: the writer in memory with an answer for every probe, or
-- OpenBao, or no store, both without probes.
pub data Stores : Type 0 where
  in_memory : MemoryWriter → Answer → Stores
  in_openbao : Bytes → Auth → Stores
  without_store : Stores

-- The demo's writer, in which one target fails, and its answer: a key good for 90 days.
abbrev pub demo_writer : MemoryWriter
demo_writer =
    fail (record { writes = []; failing = [] }) (codes "openbao/secret/backups/restic#hcloud_token")
      (codes "OpenBao write returned 403: permission denied")

abbrev pub demo_answer : Jiff → Timestamp → Answer
demo_answer jiff now = ok (
    some (record {
      expires_at = some (now +ℤ jiff.from_secs (pos (90 * 24 * 3600)));
      identity = some (codes "demo-user");
    }))

unfoldable pub stores : {K : Type 0} → Outside K → Jiff → Config → Timestamp → Result Bytes Stores
stores outside jiff cfg now =
    if cfg.demo
    then ok (in_memory demo_writer (demo_answer jiff now))
    else elim (openbao_from_config outside cfg.openbao) [
      | err e ↦ err e
      | ok none ↦ ok without_store
      | ok (some (addr, auth)) ↦ ok (in_openbao addr auth)
    ]
