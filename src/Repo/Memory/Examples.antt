-- ===== src/Repo/Memory/Examples.antt =====
-- A repository of two keys.
use you_spin_me.Prelude.{◌≡◌, ◌↔◌, List, refl, none, some, [], ◌∷◌, map, codes, Bytes, bytes_eq}
use you_spin_me.Crd.{ApiKey, ApiKeyStatus, key_name}
use you_spin_me.Validation.Examples.{two_targets}
use you_spin_me.Repo.Memory.{MemoryRepository, new, empty, insert_entry, list, get, bytes_lt}
use you_spin_me.Repo.Memory.Refinement.{Call, inserted, updated, run, replay}
use you_spin_me.Repo.Memory.Listing.{IsIn, IsSorted, run-empty_refines}

abbrev named : Bytes → ApiKey
named n = record {
  metadata = record { name = some n; namespace = none; generation = none; resource_version = none };
  spec = two_targets;
  status = none;
}

abbrev both : MemoryRepository
both = new (named (codes "b") ∷ named (codes "a") ∷ [])

-- Keys are listed by name, whatever order they came in.
list_test : map key_name (list both) ≡ codes "a" ∷ codes "b" ∷ []
unfolding new insert_entry list key_name bytes_lt bytes_eq
list_test = refl

abbrev stamp : ApiKeyStatus → ApiKeyStatus
stamp s = record s { observed_generation = none }

abbrev calls : List Call
calls = inserted (named (codes "b")) ∷ inserted (named (codes "a")) ∷ updated (codes "b") stamp ∷ []

run-empty_refines_example :
    (get (run calls empty) ≡ replay calls (λ name. none))
    × IsSorted (list (run calls empty))
    × ((key : ApiKey)
        → IsIn key (list (run calls empty))
          ↔ (replay calls (λ name. none) (key_name key) ≡ some key))
run-empty_refines_example = run-empty_refines calls
