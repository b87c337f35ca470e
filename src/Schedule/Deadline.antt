-- ===== src/Schedule/Deadline.antt =====
-- What `Schedule::compute` chooses as the deadline, and where `rotate_by` comes from.
use you_spin_me.Prelude.{
  ℕ, ◌*◌, ◌≡◌, ◌⊎◌, inl, inr, refl, arith, ltb_ℤ-cases, Option, none, some, Option-cases, Bytes,
  trim, and_then, pos, ◌+ℤ◌, ◌≤ℤ◌, ◌<ℤ◌,
}
use you_spin_me.Time.{Timestamp, SignedDuration, Jiff, IsJiff, second}
use you_spin_me.Duration.Grammar.{IsDuration, parse_iff}
use you_spin_me.Crd.{ApiKey}
use you_spin_me.Schedule.{
  Thresholds, DeadlineKind, expiry, max_age, Schedule, deadline_of, compute, parsed,
}

-- `t` is the schedule's expiry and no later than its `rotate_by`, or the other way round; where both
-- are one instant, it counts as the expiry.
abbrev pub IsEarliest : Schedule → Timestamp → DeadlineKind → Type 0
IsEarliest s t expiry = (s.expires_at ≡ some t) × ((r : Timestamp) → s.rotate_by ≡ some r → t ≤ℤ r)
IsEarliest s t max_age = (s.rotate_by ≡ some t) × ((e : Timestamp) → s.expires_at ≡ some e → t <ℤ e)

abbrev pub HasDeadline : Schedule → Type 0
HasDeadline s =
    ((t : Timestamp) × (k : DeadlineKind) × (s.deadline ≡ some (t, k)) × IsEarliest s t k)
    ⊎ ((s.deadline ≡ none) × (s.expires_at ≡ none) × (s.rotate_by ≡ none))

abbrev schedule_from :
    Option Timestamp → Option Timestamp → Option Timestamp → Thresholds → Schedule
schedule_from rotated e r th = record {
  last_rotated = rotated;
  expires_at = e;
  rotate_by = r;
  deadline = deadline_of e r;
  thresholds = th;
}

deadline_cases :
    (rotated e r : Option Timestamp) (th : Thresholds) → HasDeadline (schedule_from rotated e r th)
deadline_cases rotated none none th = inr (refl, refl, refl)
deadline_cases rotated none (some r) th =
    inl (r, max_age, refl, (refl, λ e h. absurd (ground arith)))
deadline_cases rotated (some e) none th =
    inl (e, expiry, refl, (refl, λ r h. absurd (ground arith)))
deadline_cases rotated (some e) (some r) th = elim (ltb_ℤ-cases r e) [
  | inl (b, lt) ↦ inl (r, max_age, rw b, (refl, λ x h. ground arith))
  | inr (b, le) ↦ inl (e, expiry, rw b, (refl, λ x h. ground arith))
]

-- The deadline is the earlier of the expiry and `rotate_by`; there is none exactly when both are
-- missing.
pub compute-deadline :
    (jiff : Jiff) (key : ApiKey) (th : Thresholds) → HasDeadline (compute jiff key th)
unfolding compute
compute-deadline jiff key th =
    deadline_cases (compute jiff key th).last_rotated (compute jiff key th).expires_at
      (compute jiff key th).rotate_by (compute jiff key th).thresholds

parsed-eq-some :
    (jiff : Jiff) (text : Option Bytes) (age : SignedDuration)
    → parsed jiff text ≡ some age
    → (s : Bytes) × (secs : ℕ) × (text ≡ some s)
      × IsDuration (trim s) secs
      × (age ≡ jiff.from_secs (pos secs))
parsed-eq-some jiff none age h = absurd (ground arith)
parsed-eq-some jiff (some s) age h = elim (parse_iff jiff s) [
  | inl (secs, d, e) ↦ (s, secs, refl, d, ground arith)
  | inr (_, e) ↦ absurd (ground arith)
]

-- Where a `rotate_by` comes from: the last rotation and the policy's age, which is a well-formed
-- duration, and it lies that many seconds after the rotation.
pub compute-rotate_by :
    (jiff : Jiff)
    → IsJiff jiff
    → (key : ApiKey) (th : Thresholds) (r : Timestamp) → (compute jiff key th).rotate_by ≡ some r
    → (at : Timestamp) × (text : Bytes) × (secs : ℕ) × ((compute jiff key th).last_rotated
        ≡ some at)
      × (key.spec.rotation.max_age ≡ some text)
      × IsDuration (trim text) secs
      × (r ≡ at +ℤ pos (secs * second))
unfolding compute
compute-rotate_by jiff laws key th r h =
    elim (Option-cases (and_then key.status (λ s. s.last_rotated))) [
      | inl e ↦ absurd (ground arith)
      | inr (at, e) ↦ elim (Option-cases (parsed jiff key.spec.rotation.max_age)) [
        | inl e' ↦ absurd (ground arith)
        | inr (age, e') ↦
            let (text, secs, same, d, long) = parsed-eq-some jiff _ age e' in
            (
              at,
              text,
              secs,
              e,
              same,
              d,
              cc (
                laws.checked_add_lem at age r (ground arith),
                long,
                laws.from_secs_lem (pos secs),
              ),
            )
      ]
    ]
