-- ===== src/Crd.antt =====
-- The `ApiKey` custom resource (src/crd.rs): its spec, which comes from git, its status, which only
-- this program writes, and the methods on them. `Condition` and the object's metadata are the
-- fields of the Kubernetes types that the program reads or writes.
pub mod Reference
mod Examples
use you_spin_me.Prelude.{
  ℕ, Bool, true, false, Option, none, some, List, [], ◌∷◌, ◌++◌, and_then, unwrap_or, if◌then◌else◌,
  is_nil, Bytes, codes, bytes_eq, trim_matches, ℤ,
}
use you_spin_me.Time.{Timestamp}

pub data Provider : Type 0 where
  generic github cloudflare : Provider

unfoldable pub as_str : Provider → Bytes
as_str generic = codes "generic"
as_str github = codes "github"
as_str cloudflare = codes "cloudflare"

abbrev pub is_generic : Provider → Bool
is_generic generic = true
is_generic github = false
is_generic cloudflare = false

pub record Setup : Type 0 where
  pub permissions : List Bytes
  pub notes : Option Bytes

pub record RotationPolicy : Type 0 where
  pub max_age : Option Bytes
  pub warn_before : Option Bytes
  pub critical_before : Option Bytes

pub record OpenBaoTarget : Type 0 where
  pub mount : Bytes
  pub path : Bytes
  pub key : Bytes

pub record TargetSpec : Type 0 where
  pub openbao : Option OpenBaoTarget

pub record ApiKeySpec : Type 0 where
  pub display_name : Option Bytes
  pub provider : Provider
  pub owner : Option Bytes
  pub renew_url : Option Bytes
  pub setup : Setup
  pub rotation : RotationPolicy
  pub targets : List TargetSpec
  pub consumers : List Bytes

-- The reference used in status, metrics and logs.
unfoldable pub reference : OpenBaoTarget → Bytes
reference t =
    codes "openbao/"
    ++ (t.mount ++ (codes "/" ++ (trim_matches b'/' t.path ++ (codes "#" ++ t.key))))

-- The API path as OpenBao policies write it.
unfoldable pub policy_path : OpenBaoTarget → Bytes
policy_path t = trim_matches b'/' t.mount ++ (codes "/data/" ++ trim_matches b'/' t.path)

unfoldable pub target_reference : TargetSpec → Bytes
target_reference t = elim t.openbao [ some o ↦ reference o | none ↦ codes "invalid-target" ]

pub data ExpirySource : Type 0 where
  probe manual unset : ExpirySource

pub record Actor : Type 0 where
  pub sub : Bytes
  pub name : Bytes

-- `Display`: the name, or the subject when there is none.
unfoldable pub label : Actor → Bytes
label a = if is_nil a.name then a.sub else a.name

pub record ProbeStatus : Type 0 where
  pub at : Timestamp
  pub identity : Option Bytes
  pub expires_at : Option Timestamp

pub data TargetResult : Type 0 where
  succeeded failed : TargetResult

pub record TargetStatus : Type 0 where
  pub reference : Bytes
  pub last_written : Option Timestamp
  pub result : TargetResult
  pub message : Option Bytes

pub data HistoryKind : Type 0 where
  rotated recorded : HistoryKind

pub record HistoryEntry : Type 0 where
  pub at : Timestamp
  pub by : Actor
  pub kind : HistoryKind
  pub expires_at : Option Timestamp

pub record Condition : Type 0 where
  pub type_ : Bytes
  pub status : Bytes
  pub reason : Bytes
  pub message : Bytes
  pub observed_generation : Option ℤ
  pub last_transition_time : Timestamp

abbrev pub history_limit : ℕ
history_limit = 10

pub record ApiKeyStatus : Type 0 where
  pub last_rotated : Option Timestamp
  pub rotated_by : Option Actor
  pub expires_at : Option Timestamp
  pub expires_at_source : Option ExpirySource
  pub manual_expires_at : Option Timestamp
  pub probe : Option ProbeStatus
  pub targets : List TargetStatus
  pub history : List HistoryEntry
  pub conditions : List Condition
  pub observed_generation : Option ℤ

-- `Default`
abbrev pub empty_status : ApiKeyStatus
empty_status = record {
  last_rotated = none;
  rotated_by = none;
  expires_at = none;
  expires_at_source = none;
  manual_expires_at = none;
  probe = none;
  targets = [];
  history = [];
  conditions = [];
  observed_generation = none;
}

pub record ObjectMeta : Type 0 where
  pub name : Option Bytes
  pub namespace : Option Bytes
  pub generation : Option ℤ
  pub resource_version : Option Bytes

pub record ApiKey : Type 0 where
  pub metadata : ObjectMeta
  pub spec : ApiKeySpec
  pub status : Option ApiKeyStatus

unfoldable pub key_name : ApiKey → Bytes
key_name k = unwrap_or k.metadata.name []

unfoldable pub key_namespace : ApiKey → Bytes
key_namespace k = unwrap_or k.metadata.namespace []

unfoldable pub display_name : ApiKey → Bytes
display_name k = unwrap_or k.spec.display_name (unwrap_or k.metadata.name [])

unfoldable pub find_condition : Bytes → List Condition → Option Condition
find_condition t [] = none
find_condition t (c ∷ cs) = if bytes_eq c.type_ t then some c else find_condition t cs

-- The first condition of a type.
unfoldable pub condition : ApiKey → Bytes → Option Condition
unfolding find_condition
condition k t = and_then k.status (λ s. find_condition t s.conditions)
