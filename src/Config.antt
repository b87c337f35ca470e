-- ===== src/Config.antt =====
-- The configuration (src/config.rs), and what is derived from it. The command line itself is parsed
-- by the `clap` crate. A URL is taken as its text; a path as its bytes.
pub mod Startup
pub mod Chosen
pub mod Main
pub mod Started
pub mod Examples
use you_spin_me.Prelude.{
  Bool, true, false, Option, none, some, List, ◌++◌, Result, ok, err, Bytes, codes, drop_char, trim,
}
use mathlib.Core.List.{reverse}
use you_spin_me.Time.{SignedDuration, Jiff}
use you_spin_me.Duration
use you_spin_me.Duration.{ParseDurationError, invalid}
use you_spin_me.Schedule.{Thresholds}
use you_spin_me.Glob
use you_spin_me.Glob.{PathAllowList}

pub record AuthConfig : Type 0 where
  pub oidc_issuer : Option Bytes
  pub oidc_client_id : Option Bytes
  pub oidc_client_secret_file : Option Bytes
  pub oidc_scopes : Bytes
  pub admin_claim : Bytes
  pub admin_value : Bytes
  pub session_ttl : SignedDuration
  pub step_up_max_age : Option SignedDuration
  pub cookie_key_file : Option Bytes
  pub insecure_dev_auth : Bool

pub record OpenBaoConfig : Type 0 where
  pub openbao_addr : Option Bytes
  pub openbao_auth_mount : Bytes
  pub openbao_role : Bytes
  pub openbao_jwt_file : Bytes
  pub openbao_token_file : Option Bytes
  pub openbao_ca_file : Option Bytes

pub record Config : Type 0 where
  pub listen : Bytes
  pub metrics_listen : Bytes
  pub namespace : Option Bytes
  pub public_url : Bytes
  pub warn_before : SignedDuration
  pub critical_before : SignedDuration
  pub allowed_paths : List Bytes
  pub auth : AuthConfig
  pub openbao : OpenBaoConfig
  pub demo : Bool
  pub log_json : Bool

-- `parse_duration`; `debug` is `{:?}` of a text.
unfoldable pub parse_duration : Jiff → (debug : Bytes → Bytes) → Bytes → Result Bytes SignedDuration
parse_duration jiff debug s = elim (Duration.parse jiff s) [
  | ok d ↦ ok d
  | err (invalid input) ↦ err (
      codes "invalid duration "
      ++ (debug input ++ codes ": expected <number><s|m|h|d|w>, e.g. 90d"))
]

abbrev pub thresholds : Config → Thresholds
thresholds cfg = record { warn_before = cfg.warn_before; critical_before = cfg.critical_before }

unfoldable pub allowed_paths : Config → PathAllowList
allowed_paths cfg = Glob.new cfg.allowed_paths

-- `Url::origin` and its `ascii_serialization` are the parameter.
abbrev pub public_origin : (origin_of : Bytes → Bytes) → Config → Bytes
public_origin origin_of cfg = origin_of cfg.public_url

abbrev pub service_account_namespace : Bytes
service_account_namespace = codes "/var/run/secrets/kubernetes.io/serviceaccount/namespace"

-- The reading of files is the parameter.
unfoldable pub resolve_namespace : (Bytes → Result Bytes Bytes) → Config → Result Bytes Bytes
resolve_namespace read_to_string cfg = elim cfg.namespace [
  | some ns ↦ ok ns
  | none ↦ elim (read_to_string service_account_namespace) [
    | ok s ↦ ok (trim s)
    | err e ↦ err (
        codes "--namespace not set and "
        ++ (service_account_namespace ++ (codes " unreadable: " ++ e)))
  ]
]

-- `trim_end_matches('/')`
unfoldable pub trim_end_slashes : Bytes → Bytes
trim_end_slashes s = reverse (drop_char b'/' (reverse s))

unfoldable pub url_for : Config → Bytes → Bytes
url_for cfg path = trim_end_slashes cfg.public_url ++ path
