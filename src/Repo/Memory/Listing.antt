-- ===== src/Repo/Memory/Listing.antt =====
-- What `list` holds, and the refinement as a client of a new repository sees it.
use you_spin_me.Prelude.{
  ◌≡◌, ◌↔◌, ◌⊎◌, inl, inr, refl, ap, sym, subst, ◌∙◌, arith, true, Bool-cases, none, some, List, [],
  ◌∷◌, map, All, Bytes, bytes_eq, bytes_eq_refl,
}
use you_spin_me.Crd.{ApiKey, key_name}
use you_spin_me.Repo.Memory.{bytes_lt, lookup, empty, list, get}
use you_spin_me.Repo.Memory.Order.{IsAbove, IsAscending, bytes_lt-ne}
use you_spin_me.Repo.Memory.Refinement.{IsNamed, IsValid, Call, run, replay, run_refines}

abbrev pub IsIn : ApiKey → List ApiKey → Type 0
IsIn key [] = ⊥
IsIn key (k ∷ ks) = (k ≡ key) ⊎ IsIn key ks

-- Names in strictly ascending order: none stands twice.
abbrev pub IsSorted : List ApiKey → Type 0
IsSorted [] = Unit
IsSorted (k ∷ ks) = All (λ x. bytes_lt (key_name k) (key_name x) ≡ true) ks × IsSorted ks

abbrev keys_of : List (Bytes × ApiKey) → List ApiKey
keys_of = map (λ e. e.1)

IsIn-above :
    (j : Bytes) (key : ApiKey) (m : List (Bytes × ApiKey))
    → IsAbove j m
    → IsNamed m
    → IsIn key (keys_of m)
    → bytes_lt j (key_name key) ≡ true
IsIn-above j key [] h n i = elim i [ ]
IsIn-above j key ((i, w) ∷ m) h n (inl e) = rw (← e) (rw n.0 h.0)
IsIn-above j key ((i, w) ∷ m) h n (inr e) = IsIn-above j key m h.1 n.1 e

pub IsIn-lookup :
    (key : ApiKey) (m : List (Bytes × ApiKey))
    → IsAscending m
    → IsNamed m
    → IsIn key (keys_of m)
    → lookup (key_name key) m ≡ some key
unfolding lookup
IsIn-lookup key [] h n i = elim i [ ]
IsIn-lookup key ((j, w) ∷ m) h n (inl e) =
    let same : j ≡ key_name key = sym n.0 ∙ ap key_name e in
    rw (same, bytes_eq_refl (key_name key)) (ap some e)
IsIn-lookup key ((j, w) ∷ m) h n (inr e) =
    rw (bytes_lt-ne j (key_name key) (IsIn-above j key m h.0 n.1 e)) (IsIn-lookup key m h.1 n.1 e)

lookup-IsIn :
    (name : Bytes) (key : ApiKey) (m : List (Bytes × ApiKey))
    → lookup name m ≡ some key
    → IsIn key (keys_of m)
unfolding lookup
lookup-IsIn name key [] h = absurd (ground arith)
lookup-IsIn name key ((j, w) ∷ m) h = elim (Bool-cases (bytes_eq j name)) [
  | inl e ↦ inl (ground arith)
  | inr e ↦ inr (lookup-IsIn name key m (ground arith))
]

above_names :
    (j : Bytes) (m : List (Bytes × ApiKey))
    → IsAbove j m
    → IsNamed m
    → All (λ x. bytes_lt j (key_name x) ≡ true) (keys_of m)
above_names j [] h n = tt
above_names j ((i, w) ∷ m) h n = (rw n.0 h.0, above_names j m h.1 n.1)

pub IsSorted-keys_of :
    (m : List (Bytes × ApiKey)) → IsAscending m → IsNamed m → IsSorted (keys_of m)
IsSorted-keys_of [] h n = tt
IsSorted-keys_of ((j, w) ∷ m) h n = (
  subst (λ x. All (λ y. bytes_lt x (key_name y) ≡ true) (keys_of m)) (sym n.0)
      (above_names j m h.0 n.1),
  IsSorted-keys_of m h.1 n.1,
)

-- After any calls from the start, the repository is the function from names to keys that the calls
-- describe: `get` reads it, and `list` holds exactly its keys, in the order of their names and none
-- twice.
pub run-empty_refines :
    (calls : List Call)
    → (get (run calls empty) ≡ replay calls (λ name. none))
      × IsSorted (list (run calls empty))
      × ((key : ApiKey)
          → IsIn key (list (run calls empty))
            ↔ (replay calls (λ name. none) (key_name key) ≡ some key))
unfolding list
run-empty_refines calls =
    let start : IsValid empty = record { ascending = tt; named = tt } in
    let (valid, same) = run_refines calls empty start in
    let same' : get (run calls empty) ≡ replay calls (λ name. none) =
      same ∙ unfold get lookup in refl in
    (
      same',
      IsSorted-keys_of (run calls empty).keys valid.ascending valid.named,
      λ key. (
        λ i.
            ap (λ f. f (key_name key)) (sym same')
            ∙ unfold get in IsIn-lookup key (run calls empty).keys valid.ascending valid.named i,
        λ e.
            lookup-IsIn (key_name key) key (run calls empty).keys
              (unfold get in (ap (λ f. f (key_name key)) same' ∙ e)),
      ),
    )
