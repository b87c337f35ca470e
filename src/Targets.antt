-- ===== src/Targets.antt =====
-- The secret stores (src/targets/mod.rs): the writer interface and the two simple writers.
use you_spin_me.Prelude.{
  ℕ, Option, none, some, List, [], ◌∷◌, ◌++◌, if◌then◌else◌, length, Result, ok, err, Bytes, codes,
  bytes_eq,
}
use you_spin_me.Crd.{TargetSpec, target_reference}

pub data TargetError : Type 0 where
  unconfigured : TargetError
  store : Bytes → TargetError

-- `Display`
unfoldable pub show : TargetError → Bytes
show unconfigured = codes "target has no store configured"
show (store message) = message

-- The trait, over the state of a writer.
pub record TargetWriter (W : Type 0) : Type 0 where
  pub write : W → TargetSpec → Bytes → W × Result TargetError (Unit {0})

-- Keeps the length of each value only.
pub record MemoryWriter : Type 0 where
  pub writes : List (Bytes × ℕ)
  pub failing : List (Bytes × Bytes)

unfoldable pub fail : MemoryWriter → Bytes → Bytes → MemoryWriter
fail w reference message = record w { failing = w.failing ++ (reference, message) ∷ [] }

failure : Bytes → List (Bytes × Bytes) → Option Bytes
failure reference [] = none
failure reference ((r, message) ∷ more) =
    if bytes_eq r reference then some message else failure reference more

unfoldable pub write_memory :
    MemoryWriter → TargetSpec → Bytes → MemoryWriter × Result TargetError (Unit {0})
unfolding failure
write_memory w target value = elim (failure (target_reference target) w.failing) [
  | some message ↦ (w, err (store message))
  | none ↦ (record w { writes = w.writes ++ (target_reference target, length value) ∷ [] }, ok tt)
]

abbrev pub memory_writer : TargetWriter MemoryWriter
memory_writer = record { write = write_memory }

-- `NoStore`: no address is configured, and every write fails.
unfoldable pub write_no_store :
    Unit {0} → TargetSpec → Bytes → Unit {0} × Result TargetError (Unit {0})
write_no_store w target value =
    (w, err (store (codes "no OpenBao address configured (--openbao-addr)")))

abbrev pub no_store : TargetWriter (Unit {0})
no_store = record { write = write_no_store }
