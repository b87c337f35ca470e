-- ===== src/UnitTests/Config.antt =====
-- The tests of src/config.rs.
use you_spin_me.Prelude.{
  ◌≡◌, refl, true, false, none, ok?, unwrap_or, Bytes, codes, pos, drop_char, split,
}
use you_spin_me.Time.{SignedDuration}
use you_spin_me.Time.Examples.{plain}
use you_spin_me.Schedule.{default_thresholds}
use you_spin_me.Glob.{allows}
use you_spin_me.Validation.Examples.{validation}
use you_spin_me.Config.{
  Config, parse_duration, thresholds, allowed_paths, public_origin, url_for, trim_end_slashes,
}

-- The value of a flag that is a duration, as its parser reads it.
abbrev duration : Bytes → SignedDuration
duration s = unwrap_or (ok? (parse_duration plain (λ t. t) s)) (pos 0)

-- No flag is given, except the allowed paths; these are split on commas.
abbrev parsed_from : (allowed_paths : Bytes) → Config
parsed_from paths = record {
  listen = codes "0.0.0.0:8080";
  metrics_listen = codes "0.0.0.0:9090";
  namespace = none;
  public_url = codes "http://localhost:8080/";
  warn_before = duration (codes "14d");
  critical_before = duration (codes "5d");
  allowed_paths = split b',' paths;
  auth = record {
    oidc_issuer = none;
    oidc_client_id = none;
    oidc_client_secret_file = none;
    oidc_scopes = codes "profile email groups";
    admin_claim = codes "groups";
    admin_value = codes "you-spin-me-admins";
    session_ttl = duration (codes "8h");
    step_up_max_age = none;
    cookie_key_file = none;
    insecure_dev_auth = false;
  };
  openbao = record {
    openbao_addr = none;
    openbao_auth_mount = codes "kubernetes";
    openbao_role = codes "you-spin-me";
    openbao_jwt_file = codes "/var/run/secrets/openbao/token";
    openbao_token_file = none;
    openbao_ca_file = none;
  };
  demo = false;
  log_json = false;
}

abbrev defaults : Config
defaults = parsed_from (codes "*")

-- The origin of a URL is of another crate: here it is the URL with no slash at its end.
abbrev DefaultsParse : Type 0
DefaultsParse =
    (thresholds defaults ≡ default_thresholds)
    × (allows (allowed_paths defaults) (codes "secret/data/x") ≡ true)
    × (public_origin trim_end_slashes defaults ≡ codes "http://localhost:8080")
    × (url_for defaults (codes "/keys/a") ≡ codes "http://localhost:8080/keys/a")

defaults_parse : DefaultsParse
unfolding validation parse_duration allowed_paths url_for trim_end_slashes drop_char
defaults_parse = (refl, refl, refl, refl)

abbrev with_paths : Config
with_paths = parsed_from (codes "secret/data/ci/*,kv/data/+/api/*")

abbrev AllowedPathsSplitOnCommas : Type 0
AllowedPathsSplitOnCommas =
    (allows (allowed_paths with_paths) (codes "kv/data/home/api/x") ≡ true)
    × (allows (allowed_paths with_paths) (codes "secret/data/other") ≡ false)

allowed_paths_split_on_commas : AllowedPathsSplitOnCommas
unfolding validation allowed_paths
allowed_paths_split_on_commas = (refl, refl)
