-- ===== src/Rotator/Entries.antt =====
-- The target entries of a status after a rotation.
use you_spin_me.Prelude.{
  ◌≡◌, inl, inr, refl, ap, ◌∙◌, map_option, Option-cases, arith, Bool, true, false, Option, none,
  some, List, [], ◌∷◌, if◌then◌else◌, any, keep, map, Bytes, bytes_eq, bytes_eq_iff,
}
use you_spin_me.Time.{Timestamp}
use you_spin_me.Crd.{TargetStatus, ApiKeyStatus, ProbeStatus}
use you_spin_me.Rotation.{TargetOutcome, RotateRequest, apply_rotation}
use you_spin_me.Rotator.{put_entry, put_entries, entry_of, record_outcomes}

-- The entry that a reader finds under a reference.
unfoldable pub find_entry : Bytes → List TargetStatus → Option TargetStatus
find_entry r [] = none
find_entry r (t ∷ ts) = if bytes_eq t.reference r then some t else find_entry r ts

-- The last outcome of a reference.
unfoldable pub last_outcome : Bytes → List TargetOutcome → Option TargetOutcome
last_outcome r [] = none
last_outcome r (o ∷ os) = elim (last_outcome r os) [
  | some found ↦ some found
  | none ↦ if bytes_eq o.reference r then some o else none
]

find_entry-put_entry :
    (r : Bytes) (e : TargetStatus) (ts : List TargetStatus)
    → find_entry r (put_entry e ts) ≡ (if bytes_eq e.reference r then some e else find_entry r ts)
unfolding find_entry put_entry
find_entry-put_entry r e [] = refl
find_entry-put_entry r e (t ∷ ts) = ground (
  arith,
  bytes_eq_iff e.reference r,
  bytes_eq_iff t.reference e.reference,
  bytes_eq_iff t.reference r,
  find_entry-put_entry r e ts,
)

abbrev recorded_entry : Timestamp → Option TargetOutcome → Option TargetStatus → Option TargetStatus
recorded_entry now (some o) old = some (entry_of now o)
recorded_entry now none old = old

find_entry-put_entries :
    (r : Bytes) (now : Timestamp) (os : List TargetOutcome) (ts : List TargetStatus)
    → find_entry r (put_entries now os ts)
      ≡ recorded_entry now (last_outcome r os) (find_entry r ts)
unfolding put_entries last_outcome
find_entry-put_entries r now [] ts = refl
find_entry-put_entries r now (o ∷ os) ts = ground (
  arith,
  find_entry-put_entries r now os (put_entry (entry_of now o) ts),
  find_entry-put_entry r (entry_of now o) ts,
)

abbrev pub in_refs : List Bytes → Bytes → Bool
in_refs refs r = any (λ x. bytes_eq x r) refs

in_refs_cong :
    (refs : List Bytes) (a b : Bytes) → bytes_eq a b ≡ true → in_refs refs a ≡ in_refs refs b
in_refs_cong refs a b h = ap (in_refs refs) ((bytes_eq_iff a b).0 h)

find_entry-keep :
    (refs : List Bytes) (r : Bytes) (ts : List TargetStatus)
    → find_entry r (keep (λ t. in_refs refs t.reference) ts)
      ≡ (if in_refs refs r then find_entry r ts else none)
unfolding find_entry
find_entry-keep refs r [] = ground arith
find_entry-keep refs r (t ∷ ts) =
    ground (arith, find_entry-keep refs r ts, in_refs_cong refs t.reference r)

abbrev pub references : List TargetOutcome → List Bytes
references = map (λ o. o.reference)

pub no_outcome :
    (r : Bytes) (os : List TargetOutcome)
    → last_outcome r os ≡ none
    → in_refs (references os) r ≡ false
unfolding last_outcome
no_outcome r [] h = refl
no_outcome r (o ∷ os) h = ground (arith, no_outcome r os)

record_outcomes-find :
    (refs : List Bytes) (os : List TargetOutcome) (now : Timestamp) (req : RotateRequest)
    (probed : Option ProbeStatus) (completed : Bool) (s : ApiKeyStatus) (r : Bytes)
    → find_entry r (record_outcomes refs os now req probed completed s).targets
      ≡ recorded_entry now
          (last_outcome r os)
          (if in_refs refs r then find_entry r s.targets else none)
unfolding record_outcomes apply_rotation
record_outcomes-find refs os now req probed true s r =
    rw find_entry-put_entries (rw (find_entry-keep refs))
record_outcomes-find refs os now req probed false s r =
    rw find_entry-put_entries (rw (find_entry-keep refs))

-- Where the outcomes are those of the spec's targets, the status tells of each reference just what
-- its last write did: an entry stands under a reference exactly if the spec has it, with this
-- rotation's time, result and message, whatever entries there were before.
pub entries_of_outcomes :
    (os : List TargetOutcome) (now : Timestamp) (req : RotateRequest) (probed : Option ProbeStatus)
    (completed : Bool) (s : ApiKeyStatus) (r : Bytes)
    → find_entry r (record_outcomes (references os) os now req probed completed s).targets
      ≡ map_option (entry_of now) (last_outcome r os)
entries_of_outcomes os now req probed completed s r =
    record_outcomes-find (references os) os now req probed completed s r
    ∙ elim (Option-cases (last_outcome r os)) [
      | inl e ↦ rw (e, no_outcome r os e)
      | inr (o, e) ↦ rw e
    ]
