-- ===== src/Rotator/Writes.antt =====
-- What it is to write a value to all targets in their order, said of the writer's calls alone.
use you_spin_me.Prelude.{
  ◌≡◌, inl, inr, refl, Option, none, some, List, [], ◌∷◌, Result, Result-cases, ok, err, Bytes,
}
use you_spin_me.Crd.{TargetSpec, target_reference}
use you_spin_me.Targets
use you_spin_me.Targets.{TargetError, TargetWriter}
use you_spin_me.Rotation.{TargetOutcome}
use you_spin_me.Rotator.{write_targets}

-- The outcome has the error of the write, and none if there was none.
abbrev pub Tells : Result TargetError (Unit {0}) → Option Bytes → Type 0
Tells (ok u) error = error ≡ none
Tells (err e) error = error ≡ some (Targets.show e)

module _ {W : Type 0} (writer : TargetWriter W) (value : Bytes) where
  -- The value was written to each target once, in their order, each write on what the last one left,
  -- and the outcomes tell how the writes ended.
  abbrev pub Wrote : W → List TargetSpec → List TargetOutcome → W → Type 0
  Wrote store [] [] last = last ≡ store
  Wrote store [] (o ∷ os) last = ⊥
  Wrote store (t ∷ ts) [] last = ⊥
  Wrote store (t ∷ ts) (o ∷ os) last =
      (o.reference ≡ target_reference t)
      × Tells (writer.write store t value).1 o.error
      × Wrote (writer.write store t value).0 ts os last

  pub write_targets-Wrote :
      (ts : List TargetSpec) (store : W)
      → Wrote store ts
          (write_targets writer value ts store).1
          (write_targets writer value ts store).0
  unfolding write_targets
  write_targets-Wrote [] store = refl
  write_targets-Wrote (t ∷ ts) store =
      let later = write_targets-Wrote ts (writer.write store t value).0 in
      elim (Result-cases (writer.write store t value).1) [
        | inl (u, e) ↦ rw e (refl, refl, later)
        | inr (x, e) ↦ rw e (refl, refl, later)
      ]
