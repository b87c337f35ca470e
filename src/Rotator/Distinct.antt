-- ===== src/Rotator/Distinct.antt =====
-- The targets of a status keep different references.
use you_spin_me.Prelude.{
  ◌≢◌, inl, inr, subst, arith, Bool, true, false, Bool-cases, List, [], ◌∷◌, All, keep, any, Option,
  Bytes, bytes_eq, bytes_eq_iff,
}
use you_spin_me.Time.{Timestamp}
use you_spin_me.Crd.{ApiKeyStatus, ProbeStatus, TargetStatus}
use you_spin_me.Rotation.{apply_rotation, RotateRequest, TargetOutcome}
use you_spin_me.Metrics.Distinct.{HasDistinct}
use you_spin_me.Rotator.Entry.{entry_of, put_entry, put_entries, record_outcomes}

abbrev IsOther : Bytes → List TargetStatus → Type 0
IsOther reference = All (λ u. reference ≢ u.reference)

module _ (p : TargetStatus → Bool) where
  keep-IsOther :
      (reference : Bytes) (ts : List TargetStatus)
      → IsOther reference ts
      → IsOther reference (keep p ts)
  keep-IsOther reference [] h = tt
  keep-IsOther reference (t ∷ ts) h = elim (Bool-cases (p t)) [
    | inl e ↦ rw (e, keep) (h.0, keep-IsOther reference ts h.1)
    | inr e ↦ rw (e, keep) (keep-IsOther reference ts h.1)
  ]

  keep-HasDistinct : (ts : List TargetStatus) → HasDistinct ts → HasDistinct (keep p ts)
  keep-HasDistinct [] h = tt
  keep-HasDistinct (t ∷ ts) h = elim (Bool-cases (p t)) [
    | inl e ↦ rw (e, keep, HasDistinct) (keep-IsOther t.reference ts h.0, keep-HasDistinct ts h.1)
    | inr e ↦ rw (e, keep, HasDistinct) (keep-HasDistinct ts h.1)
  ]

module _ (entry : TargetStatus) where
  put_entry-IsOther :
      (reference : Bytes) (ts : List TargetStatus)
      → reference ≢ entry.reference
      → IsOther reference ts
      → IsOther reference (put_entry entry ts)
  unfolding put_entry
  put_entry-IsOther reference [] n h = (n, tt)
  put_entry-IsOther reference (t ∷ ts) n h =
      elim (Bool-cases (bytes_eq t.reference entry.reference)) [
        | inl e ↦ rw e (n, h.1)
        | inr e ↦ rw e (h.0, put_entry-IsOther reference ts n h.1)
      ]

  put_entry-HasDistinct :
      (ts : List TargetStatus) → HasDistinct ts → HasDistinct (put_entry entry ts)
  unfolding put_entry
  put_entry-HasDistinct [] h = (tt, tt)
  put_entry-HasDistinct (t ∷ ts) h =
      let (to, from) = bytes_eq_iff t.reference entry.reference in
      elim (Bool-cases (bytes_eq t.reference entry.reference)) [
        | inl e ↦ rw e (subst (λ r. IsOther r ts) (to e) h.0, h.1)
        | inr e ↦ rw e (
          put_entry-IsOther t.reference ts (λ same. absurd (ground (arith, from same))) h.0,
          put_entry-HasDistinct ts h.1,
        )
      ]

put_entries-HasDistinct :
    (now : Timestamp) (os : List TargetOutcome) (ts : List TargetStatus)
    → HasDistinct ts
    → HasDistinct (put_entries now os ts)
unfolding put_entries
put_entries-HasDistinct now [] ts h = h
put_entries-HasDistinct now (o ∷ os) ts h =
    put_entries-HasDistinct now os _ (put_entry-HasDistinct (entry_of now o) ts h)

-- Recording the outcomes of a rotation keeps the references of a status different.
pub record_outcomes-HasDistinct :
    (now : Timestamp) (req : RotateRequest) (refs : List Bytes) (os : List TargetOutcome)
    (probed : Option ProbeStatus) (completed : Bool) (s : ApiKeyStatus)
    → HasDistinct s.targets
    → HasDistinct (record_outcomes refs os now req probed completed s).targets
unfolding record_outcomes apply_rotation
record_outcomes-HasDistinct now req refs os probed true s h =
    put_entries-HasDistinct now os _
      (keep-HasDistinct (λ t. any (λ r. bytes_eq r t.reference) refs) s.targets h)
record_outcomes-HasDistinct now req refs os probed false s h =
    put_entries-HasDistinct now os _
      (keep-HasDistinct (λ t. any (λ r. bytes_eq r t.reference) refs) s.targets h)
