-- ===== src/Rotation/Recording.antt =====
-- Recording a rotation by hand over the in-memory repository.
use you_spin_me.Prelude.{
  ◌≡◌, ◌⊎◌, inl, inr, refl, ap, ◌∙◌, arith, true, false, Bool-cases, Option, none, some,
  Option-cases, ok, err, Bytes, bytes_eq, if◌then◌else◌, ltb_ℤ-cases, ◌≤ℤ◌,
}
use you_spin_me.Time.{Timestamp, Jiff}
use you_spin_me.Crd.{ApiKey, ApiKeyStatus, Actor, recorded}
use you_spin_me.Repo.{not_found}
use you_spin_me.Repo.Memory.{MemoryRepository, memory, get}
use you_spin_me.Repo.Memory.Laws.{
  with_status, update_status-found, update_status-missing, get-record_event,
}
use you_spin_me.Rotation.{
  apply_rotation, RecordError, future_date, expiry_before_rotation, repo, before_rotation,
  record_rotation,
}

-- The rotation is not in the future, and the expiry not before it.
abbrev pub IsDated : Timestamp → Option Timestamp → Timestamp → Type 0
IsDated rotated_at none now = rotated_at ≤ℤ now
IsDated rotated_at (some e) now = (rotated_at ≤ℤ now) × (rotated_at ≤ℤ e)

abbrev pub recording : Timestamp → Actor → Option Timestamp → ApiKeyStatus → ApiKeyStatus
recording at actor expires_at status = apply_rotation status at actor recorded expires_at none

before_rotation-false :
    (expires_at : Option Timestamp) (at now : Timestamp)
    → at ≤ℤ now
    → before_rotation expires_at at ≡ false
    → IsDated at expires_at now
unfolding before_rotation
before_rotation-false none at now le h = le
before_rotation-false (some e) at now le h = elim (ltb_ℤ-cases e at) [
  | inl (b, _) ↦ absurd (ground arith)
  | inr (b, le2) ↦ (le, le2)
]

dated-le :
    (expires_at : Option Timestamp) (at now : Timestamp) → IsDated at expires_at now → at ≤ℤ now
dated-le none at now h = h
dated-le (some e) at now h = h.0

before_rotation-IsDated :
    (expires_at : Option Timestamp) (at now : Timestamp)
    → before_rotation expires_at at ≡ true
    → ¬ IsDated at expires_at now
unfolding before_rotation
before_rotation-IsDated none at now h d = absurd (ground arith)
before_rotation-IsDated (some e) at now h d = elim (ltb_ℤ-cases e at) [
  | inl (b, lt) ↦ omega (arith, lt, d.1)
  | inr (b, _) ↦ absurd (ground arith)
]

-- A rotation is recorded exactly if its dates are in order and the key is there: then the key has the
-- status with this rotation, as the result says, and the other keys are as before. Otherwise the
-- result is an error and the repository is as it was.
pub record_rotation-recorded :
    (jiff : Jiff) (r : MemoryRepository) (name : Bytes) (actor : Actor) (at : Timestamp)
    (expires_at : Option Timestamp) (now : Timestamp)
    → (IsDated at expires_at now
        × ((key : ApiKey) × (get r name ≡ some key)
            × ((record_rotation jiff memory r name actor at expires_at now).1
                ≡ ok (with_status key (recording at actor expires_at)))
            × ((other : Bytes)
                → get (record_rotation jiff memory r name actor at expires_at now).0 other ≡ (
                    if bytes_eq name other
                    then some (with_status key (recording at actor expires_at))
                    else get r other))))
      ⊎ ((e : RecordError) × (IsDated at expires_at now → get r name ≡ none)
          × (record_rotation jiff memory r name actor at expires_at now ≡ (r, err e)))
unfolding record_rotation
record_rotation-recorded jiff r name actor at expires_at now = elim (ltb_ℤ-cases now at) [
  | inl (b, lt) ↦
      inr (future_date, λ d. absurd (omega (arith, lt, dated-le expires_at at now d)), rw b refl)
  | inr (b, le) ↦ elim (Bool-cases (before_rotation expires_at at)) [
    | inl b2 ↦ inr (
      expiry_before_rotation,
      λ d. absurd (before_rotation-IsDated expires_at at now b2 d),
      rw (b, b2) refl,
    )
    | inr b2 ↦ elim (Option-cases (get r name)) [
      | inl e ↦ inr (
        repo (not_found name),
        λ _. e,
        let missing = update_status-missing r name (recording at actor expires_at) e in
            rw (b, b2)
              (rw (ap (λ x. x.1) missing) (ap (λ x. (x.0, err (repo (not_found name)))) missing)),
      )
      | inr (key, e) ↦
          let (result, others) = update_status-found r name (recording at actor expires_at) key e in
          inl (
            before_rotation-false expires_at at now le b2,
            (
              key,
              e,
              rw (b, b2) (rw result refl),
              λ other. rw (b, b2) (rw result (get-record_event _ _ _ other ∙ others other)),
            ),
          )
    ]
  ]
]
