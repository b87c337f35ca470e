-- ===== src/Repo/Memory/Laws.antt =====
-- The map of `MemoryRepository` under insertion, and its status updates.
use you_spin_me.Prelude.{
  ◌≡◌, ◌⊎◌, inl, inr, refl, arith, none, some, Option-cases, List, [], ◌∷◌, if◌then◌else◌,
  unwrap_or, ok, err, Bytes, bytes_eq, bytes_eq_iff,
}
use you_spin_me.Crd.{ApiKey, ApiKeyStatus, empty_status}
use you_spin_me.Repo.{not_found, AuditEvent}
use you_spin_me.Repo.Memory.{
  lookup, insert_entry, MemoryRepository, get, update_status, record_event,
}

module _ {V : Type 0} where
  pub lookup-insert_entry :
      (k j : Bytes) (v : V) (m : List (Bytes × V))
      → lookup j (insert_entry k v m) ≡ (if bytes_eq k j then some v else lookup j m)
  unfolding lookup insert_entry
  lookup-insert_entry k j v [] = refl
  lookup-insert_entry k j v ((i, w) ∷ m) =
      ground
        (arith, bytes_eq_iff k j, bytes_eq_iff i k, bytes_eq_iff i j, lookup-insert_entry k j v m)

pub get-record_event :
    (r : MemoryRepository) (key : ApiKey) (event : AuditEvent) (name : Bytes)
    → get (record_event r key event) name ≡ get r name
unfolding get record_event
get-record_event r key event name = refl

-- `key` with the status that an update gives it.
abbrev pub with_status : ApiKey → (ApiKeyStatus → ApiKeyStatus) → ApiKey
with_status key mutate = record key { status = some (mutate (unwrap_or key.status empty_status)) }

pub update_status-found :
    (r : MemoryRepository) (name : Bytes) (mutate : ApiKeyStatus → ApiKeyStatus) (key : ApiKey)
    → get r name ≡ some key
    → ((update_status r name mutate).1 ≡ ok (with_status key mutate))
      × ((other : Bytes)
          → get (update_status r name mutate).0 other
            ≡ (if bytes_eq name other then some (with_status key mutate) else get r other))
unfolding get update_status
update_status-found r name mutate key e = (
  rw (e, update_status),
  λ other. rw (e, update_status) (lookup-insert_entry name other _ r.keys),
)

pub update_status-missing :
    (r : MemoryRepository) (name : Bytes) (mutate : ApiKeyStatus → ApiKeyStatus)
    → get r name ≡ none
    → update_status r name mutate ≡ (r, err (not_found name))
unfolding get update_status
update_status-missing r name mutate e = rw (e, update_status)

-- A status update of a key that is there returns the key with the new status, which is what is read
-- from then on under its name; the other names read what they did. Of a missing key it is an error
-- and changes nothing.
pub update_status-get :
    (r : MemoryRepository) (name : Bytes) (mutate : ApiKeyStatus → ApiKeyStatus)
    → ((key : ApiKey) × (get r name ≡ some key)
        × ((update_status r name mutate).1 ≡ ok (with_status key mutate))
        × ((other : Bytes)
            → get (update_status r name mutate).0 other
              ≡ (if bytes_eq name other then some (with_status key mutate) else get r other)))
      ⊎ ((get r name ≡ none) × (update_status r name mutate ≡ (r, err (not_found name))))
update_status-get r name mutate = elim (Option-cases (get r name)) [
  | inl e ↦ inr (e, update_status-missing r name mutate e)
  | inr (key, e) ↦
      let (result, others) = update_status-found r name mutate key e in inl (key, e, result, others)
]
