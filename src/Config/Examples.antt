-- ===== src/Config/Examples.antt =====
-- A configuration, and what the program makes of it when it starts.
mod Starting
use you_spin_me.Prelude.{
  ◌*◌, ◌≤◌, ◌≡◌, ◌⊎◌, ◌↔◌, inl, refl, arith, true, false, none, some, [], length, leb,
  if◌then◌else◌, ok, Bytes, codes, pos, ◌<ℤ◌, trim, bytes_eq, drop_char, split, trim_matches,
}
use you_spin_me.Time.{second}
use you_spin_me.Time.Examples.{plain}
use you_spin_me.Session.{admin_of, user_of, is_expired}
use you_spin_me.Login.Examples.{session}
use you_spin_me.Config.{Config, trim_end_slashes}
use you_spin_me.Demo
use you_spin_me.Crd.{target_reference, reference}
use you_spin_me.Config.Startup.{
  in_memory, without_store, demo_writer, demo_answer, stores, openbao_from_config, Outside,
  Settings, oidc, insecure_dev, mode_of, auth_from_config, start_auth, settings_of,
  client_secret_of, load_cookie_key,
}
use you_spin_me.Config.Chosen.{IsKeys, start_auth-admin_of, load_cookie_key_iff}

abbrev pub config : Config
config = record {
  listen = codes "[::]:8080";
  metrics_listen = codes "[::]:9090";
  namespace = some (codes "keys");
  public_url = codes "https://keys.example";
  warn_before = pos 30;
  critical_before = pos 7;
  allowed_paths = [];
  auth = record {
    oidc_issuer = some (codes "https://id.example");
    oidc_client_id = some (codes "ysm");
    oidc_client_secret_file = none;
    oidc_scopes = codes "openid";
    admin_claim = codes "realm.roles";
    admin_value = codes "admins";
    session_ttl = pos (28_800 * second);
    step_up_max_age = none;
    cookie_key_file = some (codes "/key");
    insecure_dev_auth = false;
  };
  openbao = record {
    openbao_addr = none;
    openbao_auth_mount = codes "kubernetes";
    openbao_role = codes "ysm";
    openbao_jwt_file = codes "/jwt";
    openbao_token_file = none;
    openbao_ca_file = none;
  };
  demo = false;
  log_json = false;
}

abbrev bytes_64 : Bytes
bytes_64 = codes "0123456789abcdef0123456789abcdef0123456789abcdef0123456789abcdef"

-- Keys are their bytes.
abbrev outside : Outside Bytes
outside = record {
  read_to_string = λ p. ok (codes "secret");
  read = λ p. ok bytes_64;
  from_utf8_lossy = λ s. s;
  split_whitespace = split 32;
  base64 = λ s. none;
  http_client = λ ca. ok tt;
  issuer_url = λ u. ok u;
  redirect_url = λ u. ok u;
  random_token = codes "r";
  generate = [];
  try_key = λ b. if leb 64 (length b) then some b else none;
}

outside-IsKeys : IsKeys outside
outside-IsKeys b = ground arith

abbrev settings : Settings
settings = record {
  issuer = codes "https://id.example";
  client_id = codes "ysm";
  client_secret = none;
  redirect = codes "https://keys.example/auth/callback";
  scopes = [];
  admin_claim = codes "realm.roles";
  admin_value = codes "admins";
}

started : start_auth outside config ≡ ok (oidc settings)
unfolding start_auth auth_from_config settings_of client_secret_of trim_end_slashes split bytes_eq
    drop_char
started = refl

admitted :
    admin_of plain
      (mode_of (oidc settings))
      (record { path_and_query = none; hx_request = false; hx_current_path = none })
      (some session)
      (pos 7)
    ≡ ok session
unfolding admin_of user_of is_expired
admitted = refl

-- The demo without an issuer lets everybody in, under a random token.
demo_test :
    start_auth outside
      (record config { demo = true; auth = record config.auth { oidc_issuer = none } })
    ≡ ok (insecure_dev (codes "r"))
unfolding start_auth auth_from_config
demo_test = refl

start_auth-admin_of_example :
    (some session ≡ some session)
    × (plain.as_second (pos 7) <ℤ session.exp)
    × (session.admin ≡ true)
start_auth-admin_of_example =
    start_auth-admin_of outside config (oidc settings) plain
      (record { path_and_query = none; hx_request = false; hx_current_path = none }) (some session)
      (pos 7) session refl (inl refl) started admitted

load_cookie_key_iff_example : ((key : Bytes) × (load_cookie_key outside config ≡ ok key)) ↔ (
    (64 ≤ length bytes_64)
    ⊎ ((b : Bytes) × (outside.base64 (trim (outside.from_utf8_lossy bytes_64)) ≡ some b)
        × (64 ≤ length b)))
load_cookie_key_iff_example =
    load_cookie_key_iff outside config (codes "/key") bytes_64 outside-IsKeys refl refl

-- The demo's writer fails at a target that a sample key has; without an address there is no store.
stores_tests :
    (stores outside plain (record config { demo = true }) (pos 0)
      ≡ ok (in_memory demo_writer (demo_answer plain (pos 0))))
    × (stores outside plain config (pos 0) ≡ ok without_store)
    × (target_reference (Demo.target (codes "backups/restic") (codes "hcloud_token"))
        ≡ codes "openbao/secret/backups/restic#hcloud_token")
unfolding stores openbao_from_config target_reference reference trim_matches
stores_tests = (refl, refl, refl)
