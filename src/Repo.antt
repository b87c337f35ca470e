-- ===== src/Repo.antt =====
-- Access to the `ApiKey` resources (src/repo.rs): the interface, its errors and audit events, and
-- the in-memory implementation. A method returns the new state and its result.
pub mod Memory
use you_spin_me.Prelude.{ℕ, Bool, Option, List, Result, Bytes}
use you_spin_me.Crd.{ApiKey, ApiKeyStatus}

pub data RepoError : Type 0 where
  not_found : Bytes → RepoError
  conflict : RepoError
  -- Any other error of the Kubernetes API, as its text.
  kube : Bytes → RepoError

pub record AuditEvent : Type 0 where
  pub reason : Bytes
  pub note : Bytes
  pub warning : Bool

-- The trait, over the state of an implementation.
pub record Repository (R : Type 0) : Type 0 where
  pub list : R → List ApiKey
  pub get : R → Bytes → Option ApiKey
  pub update_status : R → Bytes → (ApiKeyStatus → ApiKeyStatus) → R × Result RepoError ApiKey
  pub record_event : R → ApiKey → AuditEvent → R
  pub ready : R → Bool
