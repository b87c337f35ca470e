-- ===== src/Config/Main.antt =====
-- `main` of src/main.rs up to the point where it serves: what the program consists of, or why it does
-- not start. The connection to Kubernetes and the listeners are parameters.
use you_spin_me.Prelude.{if◌then◌else◌, Result, ok, err, Bytes, codes}
use you_spin_me.Time.{Timestamp, Jiff}
use you_spin_me.Schedule.{Thresholds}
use you_spin_me.Glob.{PathAllowList}
use you_spin_me.Repo.Memory
use you_spin_me.Repo.Memory.{MemoryRepository}
use you_spin_me.Demo.{sample_keys}
use you_spin_me.Config.{Config, resolve_namespace, allowed_paths, thresholds}
use you_spin_me.Config.Startup.{
  Outside, AuthMode, start_auth, load_cookie_key, Stores, stores, ◌>>=◌,
}

-- `Client::try_default` and `TcpListener::bind`.
pub record Platform (C : Type 0) : Type 0 where
  pub try_default : Result Bytes C
  pub bind : Bytes → Result Bytes (Unit {0})

-- Where the keys are: in memory, or watched through a client in a namespace.
pub data Source (C : Type 0) : Type 0 where
  sample : MemoryRepository → Source C
  watched : C → Bytes → PathAllowList → Source C

-- What the two routers are built of.
pub record Program (C K : Type 0) : Type 0 where
  pub source : Source C
  pub thresholds : Thresholds
  pub auth : AuthMode
  pub cookie_key : K
  pub stores : Stores
  pub allowed : PathAllowList

module _ {C K : Type 0} (platform : Platform C) (outside : Outside K) (jiff : Jiff) where
  abbrev pub connect : Result Bytes C
  connect = elim platform.try_default [
    | ok client ↦ ok client
    | err e ↦ err (codes "connecting to Kubernetes")
  ]

  abbrev pub watch : Config → Result Bytes (Source C)
  watch cfg = do
    namespace ← resolve_namespace outside.read_to_string cfg
    client ← connect
    ok (watched client namespace (allowed_paths cfg))

  unfoldable pub source_of : Config → Timestamp → Result Bytes (Source C)
  source_of cfg now =
      if cfg.demo then ok (sample (Memory.new (sample_keys jiff now))) else watch cfg

  unfoldable pub start : Config → Timestamp → Result Bytes (Program C K)
  start cfg now = do
    source ← source_of cfg now
    auth ← start_auth outside cfg
    cookie_key ← load_cookie_key outside cfg
    stores' ← stores outside jiff cfg now
    ui ← platform.bind cfg.listen
    ops ← platform.bind cfg.metrics_listen
    ok (record {
      source = source;
      thresholds = thresholds cfg;
      auth = auth;
      cookie_key = cookie_key;
      stores = stores';
      allowed = allowed_paths cfg;
    })
