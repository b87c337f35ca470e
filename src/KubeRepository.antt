-- ===== src/KubeRepository.antt =====
-- The Kubernetes repository and its controller (src/k8s.rs). The API server is the parameter
-- `ApiServer`: its calls change a state `S`. The reflector's cache and its readiness are a part of it.
pub mod Updates
pub mod ServerLaws
pub mod Atomic
pub mod Settled
pub mod Ready
mod Rival
mod Examples
use you_spin_me.Prelude.{
  ℕ, zero, suc, Bool, true, false, not, ◌&&◌, Option, none, some, List, [], ◌∷◌, ◌++◌, keep,
  if◌then◌else◌, Result, ok, err, is_nil, unwrap_or, Bytes, codes, bytes_eq, join, ◌==◌, ℤ,
  pos_part, neg_part,
}
use you_spin_me.Time.{Timestamp}
use you_spin_me.Crd.{ApiKey, ApiKeyStatus, Condition, empty_status, key_name, condition}
use you_spin_me.Glob.{PathAllowList}
use you_spin_me.Validation.{Crates, validate}
use you_spin_me.Repo.{RepoError, not_found, conflict, kube, AuditEvent, Repository}

-- An error of the client, with the tests of `Status` on it (false unless the API answered).
pub record KubeError : Type 0 where
  pub is_not_found : Bool
  pub is_conflict : Bool
  pub shown : Bytes

-- A published event.
pub record Event : Type 0 where
  pub warning : Bool
  pub reason : Bytes
  pub note : Bytes
  pub action : Bytes

pub record ApiServer (S : Type 0) : Type 0 where
  pub get_status : S → Bytes → S × Result KubeError ApiKey
  pub replace_status : S → Bytes → ApiKey → S × Result KubeError ApiKey
  -- A merge patch of the conditions and the observed generation of the status.
  pub patch_status : S → Bytes → List Condition → Option ℤ → S × Result KubeError ApiKey
  pub publish : S → ApiKey → Event → S × Result KubeError (Unit {0})
  -- The reflector's cache, and whether it has synced.
  pub cached : S → List ApiKey
  pub lookup : S → Bytes → Option ApiKey
  pub synced : S → Bool

abbrev pub max_status_attempts : ℕ
max_status_attempts = 3

abbrev pub with_status : (ApiKeyStatus → ApiKeyStatus) → ApiKey → ApiKey
with_status mutate obj = record obj { status = some (mutate (unwrap_or obj.status empty_status)) }

module _ {S : Type 0} (server : ApiServer S) where
  -- The loop, with the attempts that are left.
  unfoldable pub attempts :
      ℕ → S → Bytes → (ApiKeyStatus → ApiKeyStatus) → S × Result RepoError ApiKey
  attempts zero s name mutate = (s, err conflict)
  attempts (suc n) s name mutate =
      let (s', read) = server.get_status s name in
      elim read [
        | err e ↦ if e.is_not_found then (s', err (not_found name)) else (s', err (kube e.shown))
        | ok obj ↦
            let (s'', replaced) = server.replace_status s' name (with_status mutate obj) in
            let again = attempts n s'' name mutate in
            elim replaced [
              | ok updated ↦ (s'', ok updated)
              | err e ↦ if e.is_conflict then again else (s'', err (kube e.shown))
            ]
      ]

  unfoldable pub update_status :
      S → Bytes → (ApiKeyStatus → ApiKeyStatus) → S × Result RepoError ApiKey
  unfolding attempts
  update_status s name mutate = attempts max_status_attempts s name mutate

  -- An event that cannot be published is logged only.
  unfoldable pub record_event : S → ApiKey → AuditEvent → S
  record_event s key event =
      (server.publish s key (record {
        warning = event.warning;
        reason = event.reason;
        note = event.note;
        action = event.reason;
      })).0

  abbrev pub kube_repository : Repository S
  kube_repository = record {
    list = server.cached;
    get = server.lookup;
    update_status = update_status;
    record_event = record_event;
    ready = server.synced;
  }

abbrev pub valid_condition : Bytes
valid_condition = codes "Valid"

abbrev pub same_generation : Option ℤ → Option ℤ → Bool
same_generation none none = true
same_generation none (some b) = false
same_generation (some a) none = false
same_generation (some a) (some b) = pos_part a == pos_part b && neg_part a == neg_part b

-- Status, reason and message.
abbrev pub verdict : List Bytes → Bytes × Bytes × Bytes
verdict problems =
    if is_nil problems
    then (codes "True", codes "Valid", codes "Spec is valid")
    else (codes "False", codes "InvalidSpec", join (codes "; ") problems)

abbrev pub is_current : Bytes → Bytes → Option ℤ → Option Condition → Bool
is_current status message generation none = false
is_current status message generation (some c) =
    bytes_eq c.status status
    && bytes_eq c.message message
    && same_generation c.observed_generation generation

-- A transition is a change of the status.
abbrev pub transition : Bytes → Timestamp → Option Condition → Timestamp
transition status now none = now
transition status now (some c) = if bytes_eq c.status status then c.last_transition_time else now

abbrev pub condition_of : Bytes × Bytes × Bytes → ApiKey → Timestamp → Condition
condition_of v key now = record {
  type_ = valid_condition;
  status = v.0;
  reason = v.1;
  message = v.2;
  observed_generation = key.metadata.generation;
  last_transition_time = transition v.0 now (condition key valid_condition);
}

unfoldable pub desired_valid_condition :
    Crates → ApiKey → PathAllowList → Timestamp → Option Condition
desired_valid_condition crates key allowed now =
    let (status, reason, message) = verdict (validate crates key.spec allowed) in
    if is_current status message key.metadata.generation (condition key valid_condition)
    then none
    else some (condition_of (status, reason, message) key now)

-- The conditions that are patched in.
abbrev pub patched : ApiKey → Condition → List Condition
patched key c =
    keep (λ x. not (bytes_eq x.type_ valid_condition))
      (unwrap_or key.status empty_status).conditions
    ++ c ∷ []

pub data Action : Type 0 where
  await_change : Action
  requeue_after_seconds : ℕ → Action

unfoldable pub reconcile :
    {S : Type 0}
    → ApiServer S
    → Crates
    → PathAllowList
    → S
    → ApiKey
    → Timestamp
    → S × Result KubeError Action
reconcile server crates allowed s key now = elim (desired_valid_condition crates key allowed now) [
  | none ↦ (s, ok await_change)
  | some c ↦
      let (s', answer) =
        server.patch_status s (key_name key) (patched key c) key.metadata.generation in
      elim answer [ err e ↦ (s', err e) | ok updated ↦ (s', ok await_change) ]
]

-- `error_policy`
abbrev pub error_policy : Action
error_policy = requeue_after_seconds 30
