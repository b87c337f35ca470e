-- ===== src/Config/Examples/Starting.antt =====
-- A program that starts, and others that do not.
use you_spin_me.Prelude.{◌≡◌, refl, some, ok, err, Bytes, codes, pos, bytes_eq, drop_char, split}
use you_spin_me.Time.Examples.{plain}
use you_spin_me.Config.{Config, resolve_namespace, allowed_paths, thresholds, trim_end_slashes}
use you_spin_me.Config.Startup.{
  auth_from_config, start_auth, settings_of, client_secret_of, load_cookie_key, oidc, in_openbao,
  stores, openbao_from_config, auth_of,
}
use you_spin_me.Config.Main.{Platform, watched, Program, source_of, start}
use you_spin_me.Config.Started.{IsProduction, start-IsProduction}
use you_spin_me.Config.Examples.{config, outside, bytes_64, settings}

abbrev in_cluster : Config
in_cluster = record config {
  openbao = record config.openbao { openbao_addr = some (codes "https://bao.example") };
}

abbrev platform : Platform Bytes
platform = record { try_default = ok (codes "client"); bind = λ address. ok tt }

abbrev program : Program Bytes Bytes
program = record {
  source = watched (codes "client") (codes "keys") (allowed_paths in_cluster);
  thresholds = thresholds in_cluster;
  auth = oidc settings;
  cookie_key = bytes_64;
  stores = in_openbao (codes "https://bao.example") (auth_of outside in_cluster.openbao);
  allowed = allowed_paths in_cluster;
}

starting : start platform outside plain in_cluster (pos 0) ≡ ok program
unfolding start source_of resolve_namespace start_auth auth_from_config settings_of client_secret_of
    trim_end_slashes split bytes_eq drop_char load_cookie_key stores openbao_from_config
starting = refl

start-IsProduction_example : IsProduction platform outside plain in_cluster program
start-IsProduction_example =
    start-IsProduction platform outside plain in_cluster (pos 0) program refl refl starting

-- Without a cluster only the demo starts.
abbrev alone : Platform Bytes
alone = record platform { try_default = err (codes "no cluster") }

alone_test : start alone outside plain in_cluster (pos 0) ≡ err (codes "connecting to Kubernetes")
unfolding start source_of resolve_namespace
alone_test = refl
