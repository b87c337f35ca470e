-- ===== src/Views/Rows.antt =====
-- What the page of a key shows of its targets after a rotation.
use you_spin_me.Prelude.{
  ◌≡◌, ◌⊎◌, inl, inr, refl, ap, sym, subst, ◌∙◌, arith, true, some, Option-cases, map_option,
  unwrap_or, is_some, if◌then◌else◌, List, [], ◌∷◌, map, ok, Bytes, codes, bytes_eq, bytes_eq_refl,
}
use you_spin_me.Time.{Timestamp, Jiff}
use you_spin_me.Crd.{ApiKey, ApiKeyStatus, TargetSpec, target_reference, TargetStatus, empty_status}
use you_spin_me.Validation.{Crates}
use you_spin_me.Glob.{PathAllowList}
use you_spin_me.Providers.{Prober}
use you_spin_me.Targets.{TargetWriter}
use you_spin_me.Repo.Memory.{MemoryRepository, get}
use you_spin_me.Rotation.{RotateRequest, RotateOutcome, TargetOutcome}
use you_spin_me.Rotator.{World, rotate, entry_of}
use you_spin_me.Rotator.Entries.{find_entry, last_outcome, references, in_refs, no_outcome}
use you_spin_me.Rotator.Records.{over_memory, rotate-Records}
use you_spin_me.Rotator.Recorded.{IsRecorded}
use you_spin_me.Rotator.Writes.{Wrote}
use you_spin_me.Schedule.{Thresholds}
use you_spin_me.Views.{Outside}
use you_spin_me.Views.Detail.{find_status, target_row, detail_of, TargetRow}

find_status-find_entry : (r : Bytes) (ss : List TargetStatus) → find_status r ss ≡ find_entry r ss
unfolding find_status find_entry
find_status-find_entry r [] = refl
find_status-find_entry r (s ∷ ss) =
    ap (λ x. if bytes_eq s.reference r then some s else x) (find_status-find_entry r ss)

abbrev IsTarget : TargetSpec → List TargetSpec → Type 0
IsTarget t [] = ⊥
IsTarget t (u ∷ us) = (u ≡ t) ⊎ IsTarget t us

in_refs-IsTarget :
    (t : TargetSpec) (ts : List TargetSpec)
    → IsTarget t ts
    → in_refs (map target_reference ts) (target_reference t) ≡ true
in_refs-IsTarget t [] h = elim h [ ]
in_refs-IsTarget t (u ∷ us) (inl e) = rw (e, bytes_eq_refl (target_reference t)) refl
in_refs-IsTarget t (u ∷ us) (inr e) = ground (arith, in_refs-IsTarget t us e)

tried :
    (t : TargetSpec) (ts : List TargetSpec) (os : List TargetOutcome)
    → references os ≡ map target_reference ts
    → IsTarget t ts
    → (o : TargetOutcome) × (last_outcome (target_reference t) os ≡ some o)
tried t ts os same h = elim (Option-cases (last_outcome (target_reference t) os)) [
  | inr (o, e) ↦ (o, e)
  | inl e ↦ absurd (
      cc (
        no_outcome (target_reference t) os e,
        subst (λ rs. in_refs rs (target_reference t) ≡ true) (sym same) (in_refs-IsTarget t ts h),
      ))
]

-- What a row shows of an outcome.
abbrev IsShown : Jiff → ApiKeyStatus → Timestamp → TargetSpec → TargetOutcome → Type 0
IsShown jiff s later t o =
    ((target_row jiff s later t).result ≡ (if is_some o.error then codes "failed" else codes "ok"))
    × ((target_row jiff s later t).message ≡ unwrap_or o.error [])

shown :
    (jiff : Jiff) (s : ApiKeyStatus) (now later : Timestamp) (t : TargetSpec) (o : TargetOutcome)
    → find_entry (target_reference t) s.targets ≡ some (entry_of now o)
    → IsShown jiff s later t o
unfolding target_row
shown jiff s now later t o e =
    rw (find_status-find_entry (target_reference t) s.targets, e) (ground arith, refl)

-- The rows of the page for these targets, in their order: each with the reference of its target, and
-- the result and the message of the last write to it that the outcomes tell of.
abbrev pub ShowsWrites : List TargetSpec → List TargetOutcome → List TargetRow → Type 0
ShowsWrites [] os [] = Unit
ShowsWrites [] os (row ∷ rows) = ⊥
ShowsWrites (t ∷ ts) os [] = ⊥
ShowsWrites (t ∷ ts) os (row ∷ rows) =
    (row.reference ≡ target_reference t)
    × ((x : TargetOutcome) × (last_outcome (target_reference t) os ≡ some x)
        × (row.result ≡ (if is_some x.error then codes "failed" else codes "ok"))
        × (row.message ≡ unwrap_or x.error []))
    × ShowsWrites ts os rows

module _ (jiff : Jiff) (now later : Timestamp) (key : ApiKey) (s : ApiKeyStatus)
    (req : RotateRequest) (o : RotateOutcome) (old : ApiKeyStatus)
    (told : IsRecorded now req o old s)
    (refs : references o.targets ≡ map target_reference key.spec.targets) where
  target_rows-ShowsWrites :
      (ts : List TargetSpec)
      → ((t : TargetSpec) → IsTarget t ts → IsTarget t key.spec.targets)
      → ShowsWrites ts o.targets (map (target_row jiff s later) ts)
  unfolding target_row
  target_rows-ShowsWrites [] within = tt
  target_rows-ShowsWrites (t ∷ ts) within =
      let (x, e) = tried t key.spec.targets o.targets refs (within t (inl refl)) in
      let (result, message) =
        shown jiff s now later t x
          (told.entries (target_reference t) ∙ ap (map_option (entry_of now)) e) in
      (refl, (x, e, result, message), target_rows-ShowsWrites ts (λ u is. within u (inr is)))

-- After a rotation that returns an outcome, the writer was called for every target once and in their
-- order, the outcomes tell how these writes ended, and the page of the key, whenever it is made, has a
-- row for each target with the result of the last write to its reference, and that write's message.
pub rotate-IsShown :
    {W : Type 0} (crates : Crates) (writer : TargetWriter W) (prober : Prober)
    (allowed : PathAllowList) (views : Outside) (thresholds : Thresholds)
    (w : World MemoryRepository W) (name : Bytes) (req : RotateRequest) (now later : Timestamp)
    (o : RotateOutcome)
    → (rotate (over_memory crates writer prober allowed) w name req now).1 ≡ ok o
    → (key : ApiKey) × (get
          (rotate (over_memory crates writer prober allowed) w name req now).0.repo
          name
        ≡ some key)
      × Wrote writer req.value w.store key.spec.targets o.targets
          (rotate (over_memory crates writer prober allowed) w name req now).0.store
      × ShowsWrites key.spec.targets o.targets (detail_of views key thresholds later).targets
unfolding detail_of
rotate-IsShown crates writer prober allowed views thresholds w name req now later o h =
    let (key, there, (s, wrote, refs, change, told)) =
      rotate-Records crates writer prober allowed w name req now o h in
    (
      record key { status = some s },
      change name
          ∙ ap (λ b. if b then some (record key { status = some s }) else get w.repo name)
              (bytes_eq_refl name),
      wrote,
      target_rows-ShowsWrites views.crates.jiff now later key s req o
          (unwrap_or key.status empty_status) told refs key.spec.targets (λ t is. is),
    )
