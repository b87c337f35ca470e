-- ===== src/Repo/Memory/Refinement.antt =====
-- The in-memory repository as a function from names to keys, over any sequence of calls.
use you_spin_me.Prelude.{
  ◌≡◌, inl, inr, refl, ap, sym, ◌∙◌, arith, Option, some, Option-cases, map_option, if◌then◌else◌,
  List, [], ◌∷◌, All, Bytes, bytes_eq, bytes_eq_iff,
}
use mathlib.Core.Path.{fun_ext}
use you_spin_me.Crd.{ApiKey, ApiKeyStatus, key_name}
use you_spin_me.Repo.{AuditEvent}
use you_spin_me.Repo.Memory.{
  lookup, insert_entry, MemoryRepository, insert, get, update_status, record_event,
}
use you_spin_me.Repo.Memory.Laws.{
  lookup-insert_entry, with_status, update_status-found, update_status-missing, get-record_event,
}
use you_spin_me.Repo.Memory.Order.{IsAscending, insert_entry-IsAscending}

-- Each key stands under its own name.
abbrev pub IsNamed : List (Bytes × ApiKey) → Type 0
IsNamed = All (λ e. key_name e.1 ≡ e.0)

pub record IsValid (r : MemoryRepository) : Type 0 where
  pub ascending : IsAscending r.keys
  pub named : IsNamed r.keys

-- A call that changes the repository.
pub data Call : Type 0 where
  inserted : ApiKey → Call
  updated : Bytes → (ApiKeyStatus → ApiKeyStatus) → Call
  noted : ApiKey → AuditEvent → Call

unfoldable pub run : List Call → MemoryRepository → MemoryRepository
run [] r = r
run (inserted key ∷ calls) r = run calls (insert r key)
run (updated name mutate ∷ calls) r = run calls (update_status r name mutate).0
run (noted key event ∷ calls) r = run calls (record_event r key event)

-- What the interface promises: a function from names to keys.
abbrev pub Keys : Type 0
Keys = Bytes → Option ApiKey

abbrev pub put : Bytes → Option ApiKey → Keys → Keys
put name key f other = if bytes_eq name other then key else f other

-- The same calls on it. Events are not part of it, and an update of a missing key does nothing.
unfoldable pub replay : List Call → Keys → Keys
replay [] f = f
replay (inserted key ∷ calls) f = replay calls (put (key_name key) (some key) f)
replay (updated name mutate ∷ calls) f =
    replay calls (put name (map_option (λ k. with_status k mutate) (f name)) f)
replay (noted key event ∷ calls) f = replay calls f

insert_entry-IsNamed :
    (k : Bytes) (v : ApiKey) (m : List (Bytes × ApiKey))
    → key_name v ≡ k
    → IsNamed m
    → IsNamed (insert_entry k v m)
unfolding insert_entry
insert_entry-IsNamed k v [] e h = (e, tt)
insert_entry-IsNamed k v ((j, w) ∷ m) e h = ground (arith, insert_entry-IsNamed k v m e)

lookup-key_name :
    (name : Bytes) (m : List (Bytes × ApiKey)) (key : ApiKey)
    → IsNamed m
    → lookup name m ≡ some key
    → key_name key ≡ name
unfolding lookup
lookup-key_name name [] key h e = absurd (ground arith)
lookup-key_name name ((j, w) ∷ m) key h e =
    ground (arith, bytes_eq_iff j name, lookup-key_name name m key)

insert-IsValid : (r : MemoryRepository) (key : ApiKey) → IsValid r → IsValid (insert r key)
unfolding insert
insert-IsValid r key h = record {
  ascending = insert_entry-IsAscending (key_name key) key r.keys h.ascending;
  named = insert_entry-IsNamed (key_name key) key r.keys refl h.named;
}

get-insert :
    (r : MemoryRepository) (key : ApiKey)
    → get (insert r key) ≡ put (key_name key) (some key) (get r)
unfolding get insert
get-insert r key = fun_ext λ other. lookup-insert_entry (key_name key) other key r.keys

key_name-with_status :
    (key : ApiKey) (mutate : ApiKeyStatus → ApiKeyStatus)
    → key_name (with_status key mutate) ≡ key_name key
unfolding key_name
key_name-with_status key mutate = refl

pub update_status-IsValid :
    (r : MemoryRepository) (name : Bytes) (mutate : ApiKeyStatus → ApiKeyStatus)
    → IsValid r
    → IsValid (update_status r name mutate).0
unfolding update_status
update_status-IsValid r name mutate h = elim (Option-cases (lookup name r.keys)) [
  | inl e ↦ rw (e, update_status) h
  | inr (key, e) ↦
      rw (e, update_status)
        (record {
          ascending = insert_entry-IsAscending name (with_status key mutate) r.keys h.ascending;
          named =
              insert_entry-IsNamed name (with_status key mutate) r.keys
                (key_name-with_status key mutate ∙ lookup-key_name name r.keys key h.named e)
                h.named;
        })
]

put_same : (f : Keys) (name other : Bytes) → put name (f name) f other ≡ f other
put_same f name other = ground (arith, bytes_eq_iff name other)

get-update_status :
    (r : MemoryRepository) (name : Bytes) (mutate : ApiKeyStatus → ApiKeyStatus)
    → get (update_status r name mutate).0
      ≡ put name (map_option (λ k. with_status k mutate) (get r name)) (get r)
get-update_status r name mutate = fun_ext λ other. elim (Option-cases (get r name)) [
  | inl e ↦
      rw (update_status-missing r name mutate e, e)
        (sym (put_same (get r) name other) ∙ ap (λ x. put name x (get r) other) e)
  | inr (key, e) ↦ rw e ((update_status-found r name mutate key e).1 other)
]

get-record_event_fun :
    (r : MemoryRepository) (key : ApiKey) (event : AuditEvent)
    → get (record_event r key event) ≡ get r
get-record_event_fun r key event = fun_ext (get-record_event r key event)

pub record_event-IsValid :
    (r : MemoryRepository) (key : ApiKey) (event : AuditEvent)
    → IsValid r
    → IsValid (record_event r key event)
unfolding record_event
record_event-IsValid r key event h = record { ascending = h.ascending; named = h.named }

pub run_refines :
    (calls : List Call) (r : MemoryRepository)
    → IsValid r
    → IsValid (run calls r) × (get (run calls r) ≡ replay calls (get r))
unfolding run replay
run_refines [] r h = (h, refl)
run_refines (inserted key ∷ calls) r h =
    let (valid, same) = run_refines calls (insert r key) (insert-IsValid r key h) in
    (valid, same ∙ ap (replay calls) (get-insert r key))
run_refines (updated name mutate ∷ calls) r h =
    let (valid, same) = run_refines calls _ (update_status-IsValid r name mutate h) in
    (valid, same ∙ ap (replay calls) (get-update_status r name mutate))
run_refines (noted key event ∷ calls) r h =
    let (valid, same) = run_refines calls _ (record_event-IsValid r key event h) in
    (valid, same ∙ ap (replay calls) (get-record_event_fun r key event))
