-- ===== src/Schedule/Urgency.antt =====
-- When a key is in which alert state.
use you_spin_me.Prelude.{
  ℕ, ◌≡◌, ◌↔◌, inl, inr, refl, ◌≢◌, arith, ◌≤◌, none, some, Option-cases, leb_ℤ-cases, ltb_ℤ-cases,
  ℤ, pos, ◌+ℤ◌, ◌-ℤ◌, ◌≤ℤ◌, ◌<ℤ◌, int_laws, Bytes, codes, bytes_eq, bytes_eq_iff,
}
use you_spin_me.Time.{Timestamp, Jiff, IsJiff}
use you_spin_me.Schedule.{
  Thresholds, State, expired, critical, warning, unknown, fine, as_str, parse, Schedule, state_of,
  remaining, state, DeadlineKind,
}

-- The alert state of a schedule at an instant, by comparing instants.
abbrev pub InState : Schedule → Timestamp → State → Type 0
InState s now expired = (d : Timestamp × DeadlineKind) × (s.deadline ≡ some d) × (d.0 ≤ℤ now)
InState s now critical =
    (d : Timestamp × DeadlineKind) × (s.deadline ≡ some d)
    × (now <ℤ d.0)
    × (d.0 <ℤ now +ℤ s.thresholds.critical_before)
InState s now warning =
    (d : Timestamp × DeadlineKind) × (s.deadline ≡ some d)
    × (now <ℤ d.0)
    × (now +ℤ s.thresholds.critical_before ≤ℤ d.0)
    × (d.0 <ℤ now +ℤ s.thresholds.warn_before)
InState s now fine =
    (d : Timestamp × DeadlineKind) × (s.deadline ≡ some d)
    × (now <ℤ d.0)
    × (now +ℤ s.thresholds.critical_before ≤ℤ d.0)
    × (now +ℤ s.thresholds.warn_before ≤ℤ d.0)
InState s now unknown = s.deadline ≡ none

shift_lt : (d now c : ℤ) → ((d -ℤ now) <ℤ c) ↔ (d <ℤ now +ℤ c)
shift_lt d now c = (λ h. omega int_laws, λ h. omega int_laws)

shift_le : (d now c : ℤ) → (c ≤ℤ (d -ℤ now)) ↔ (now +ℤ c ≤ℤ d)
shift_le d now c = (λ h. omega int_laws, λ h. omega int_laws)

expired_or_not : (d now : ℤ) → ((d -ℤ now) ≤ℤ pos 0) ↔ (d ≤ℤ now)
expired_or_not d now = (λ h. omega int_laws, λ h. omega int_laws)

not_expired : (d now : ℤ) → (pos 0 <ℤ (d -ℤ now)) ↔ (now <ℤ d)
not_expired d now = (λ h. omega int_laws, λ h. omega int_laws)

classify :
    (s : Schedule) (now : Timestamp) (d : Timestamp × DeadlineKind)
    → s.deadline ≡ some d
    → InState s now (state_of s.thresholds (some (d.0 -ℤ now)))
unfolding state_of
classify s now d e =
    let th = s.thresholds in
    elim (leb_ℤ-cases (d.0 -ℤ now) (pos 0)) [
      | inl (b, h) ↦ rw b (d, e, (expired_or_not d.0 now).0 h)
      | inr (b, h) ↦ elim (ltb_ℤ-cases (d.0 -ℤ now) th.critical_before) [
        | inl (b', h') ↦
            rw (b, b') (d, e, (not_expired d.0 now).0 h, (shift_lt d.0 now th.critical_before).0 h')
        | inr (b', h') ↦ elim (ltb_ℤ-cases (d.0 -ℤ now) th.warn_before) [
          | inl (b'', h'') ↦
              rw (b, b', b'')
                (
                  d,
                  e,
                  (not_expired d.0 now).0 h,
                  (shift_le d.0 now th.critical_before).0 h',
                  (shift_lt d.0 now th.warn_before).0 h'',
                )
          | inr (b'', h'') ↦
              rw (b, b', b'')
                (
                  d,
                  e,
                  (not_expired d.0 now).0 h,
                  (shift_le d.0 now th.critical_before).0 h',
                  (shift_le d.0 now th.warn_before).0 h'',
                )
        ]
      ]
    ]

-- The order that `State` derives from its variants.
abbrev pub rank : State → ℕ
rank expired = 0
rank critical = 1
rank warning = 2
rank unknown = 3
rank fine = 4

state_of_mono :
    (th : Thresholds) (r r' : ℤ)
    → r' ≤ℤ r
    → rank (state_of th (some r')) ≤ rank (state_of th (some r))
unfolding state_of
state_of_mono th r r' h = ground arith

state_of-ne-unknown : (th : Thresholds) (r : ℤ) → state_of th (some r) ≢ unknown
unfolding state_of
state_of-ne-unknown th r = ground arith

sub_mono : (d now later : ℤ) → now ≤ℤ later → (d -ℤ later) ≤ℤ (d -ℤ now)
sub_mono d now later h = omega int_laws

module _ (jiff : Jiff) (laws : IsJiff jiff) where
  at_deadline :
      (s : Schedule) (now : Timestamp) (d : Timestamp × DeadlineKind)
      → s.deadline ≡ some d
      → state jiff s now ≡ state_of s.thresholds (some (d.0 -ℤ now))
  unfolding state remaining
  at_deadline s now d e = rw (← laws.duration_since_lem d.0 now) (rw (e, state, remaining))

  no_deadline : (s : Schedule) (now : Timestamp) → s.deadline ≡ none → state jiff s now ≡ unknown
  unfolding state remaining state_of
  no_deadline s now e = rw (e, remaining)

  -- The state is the one that the deadline and the thresholds give at this instant.
  pub state-InState : (s : Schedule) (now : Timestamp) → InState s now (state jiff s now)
  state-InState s now = elim (Option-cases s.deadline) [
    | inl e ↦ rw (no_deadline s now e) e
    | inr (d, e) ↦ rw (at_deadline s now d e) (classify s now d e)
  ]

  -- As time passes the state never gets less urgent: it moves in the order of `State`'s variants
  -- from the last towards the first, and `Unknown` stays.
  pub state_mono :
      (s : Schedule) (now later : Timestamp)
      → now ≤ℤ later
      → (rank (state jiff s later) ≤ rank (state jiff s now))
        × ((state jiff s now ≡ unknown) ↔ (state jiff s later ≡ unknown))
  state_mono s now later h = elim (Option-cases s.deadline) [
    | inl e ↦ rw (no_deadline s now e, no_deadline s later e) (omega arith, (λ h. h, λ h. h))
    | inr (d, e) ↦
        rw (at_deadline s now d e, at_deadline s later d e)
          (
            state_of_mono s.thresholds _ _ (sub_mono d.0 now later h),
            (
              λ u. absurd (state_of-ne-unknown s.thresholds _ u),
              λ u. absurd (state_of-ne-unknown s.thresholds _ u),
            ),
          )
  ]

pub parse-as_str : (s : State) → parse (as_str s) ≡ some s
unfolding parse as_str bytes_eq
parse-as_str expired = refl
parse-as_str critical = refl
parse-as_str warning = refl
parse-as_str unknown = refl
parse-as_str fine = refl

-- `State::parse` accepts exactly the names that `as_str` prints, and reads each as its state.
pub parse-as_str_iff : (text : Bytes) (s : State) → (parse text ≡ some s) ↔ (text ≡ as_str s)
parse-as_str_iff text s = (
  unfold parse as_str in
      ground (
        arith,
        bytes_eq_iff text (codes "expired"),
        bytes_eq_iff text (codes "critical"),
        bytes_eq_iff text (codes "warning"),
        bytes_eq_iff text (codes "unknown"),
        bytes_eq_iff text (codes "ok"),
      ),
  λ e. rw e (parse-as_str s),
)
