-- ===== src/Repo/Memory.antt =====
-- `MemoryRepository` of src/repo.rs. Its `BTreeMap` is a list of entries in the order of their keys.
pub mod Laws
pub mod Order
pub mod Refinement
pub mod Listing
mod Examples
use you_spin_me.Prelude.{
  ℕ, Bool, true, false, ◌&&◌, ◌||◌, Option, none, some, List, [], ◌∷◌, ◌++◌, map, if◌then◌else◌,
  ltb, ◌==◌, unwrap_or, Result, ok, err, Bytes, bytes_eq,
}
use you_spin_me.Crd.{ApiKey, ApiKeyStatus, empty_status, key_name}
use you_spin_me.Repo.{RepoError, not_found, AuditEvent, Repository}

-- `Ord` of texts: by bytes.
unfoldable pub bytes_lt : Bytes → Bytes → Bool
bytes_lt s [] = false
bytes_lt [] (b ∷ t) = true
bytes_lt (a ∷ s) (b ∷ t) = ltb a b || (a == b && bytes_lt s t)

module _ {V : Type 0} where
  unfoldable pub lookup : Bytes → List (Bytes × V) → Option V
  lookup k [] = none
  lookup k ((j, v) ∷ m) = if bytes_eq j k then some v else lookup k m

  unfoldable pub insert_entry : Bytes → V → List (Bytes × V) → List (Bytes × V)
  insert_entry k v [] = (k, v) ∷ []
  insert_entry k v ((j, w) ∷ m) =
      if bytes_eq j k
      then (k, v) ∷ m
      else if bytes_lt k j
      then (k, v) ∷ (j, w) ∷ m
      else (j, w) ∷ insert_entry k v m

pub record MemoryRepository : Type 0 where
  pub keys : List (Bytes × ApiKey)
  pub events : List (Bytes × AuditEvent)

-- `default`
abbrev pub empty : MemoryRepository
empty = record { keys = []; events = [] }

unfoldable pub insert : MemoryRepository → ApiKey → MemoryRepository
insert r key = record r { keys = insert_entry (key_name key) key r.keys }

unfoldable pub new_from : MemoryRepository → List ApiKey → MemoryRepository
new_from r [] = r
new_from r (key ∷ keys) = new_from (insert r key) keys

-- `MemoryRepository::new`
unfoldable pub new : List ApiKey → MemoryRepository
unfolding new_from insert
new keys = new_from empty keys

unfoldable pub list : MemoryRepository → List ApiKey
list r = map (λ e. e.1) r.keys

unfoldable pub get : MemoryRepository → Bytes → Option ApiKey
get r name = lookup name r.keys

unfoldable pub update_status :
    MemoryRepository
    → Bytes
    → (ApiKeyStatus → ApiKeyStatus)
    → MemoryRepository × Result RepoError ApiKey
update_status r name mutate = elim (lookup name r.keys) [
  | none ↦ (r, err (not_found name))
  | some current ↦
      let updated = record current {
        status = some (mutate (unwrap_or current.status empty_status));
      } in
      (record r { keys = insert_entry name updated r.keys }, ok updated)
]

unfoldable pub record_event : MemoryRepository → ApiKey → AuditEvent → MemoryRepository
record_event r key event = record r { events = r.events ++ (key_name key, event) ∷ [] }

abbrev pub memory : Repository MemoryRepository
memory = record {
  list = list;
  get = get;
  update_status = update_status;
  record_event = record_event;
  ready = λ r. true;
}
