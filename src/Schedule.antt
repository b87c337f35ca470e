-- ===== src/Schedule.antt =====
-- Deadlines and alert states (src/schedule.rs): `State`, `Thresholds` and `Schedule`.
pub mod Deadline
pub mod Urgency
mod Examples
use you_spin_me.Prelude.{
  ℕ, ◌*◌, Bool, Option, none, some, List, [], ◌∷◌, ok?, and_then, unwrap_or, map_option,
  if◌then◌else◌, Bytes, codes, bytes_eq, ℤ, pos, ltb_ℤ, leb_ℤ,
}
use you_spin_me.Time.{Timestamp, SignedDuration, Jiff, second}
use you_spin_me.Duration
use you_spin_me.Crd.{ApiKey}

pub record Thresholds : Type 0 where
  pub warn_before : SignedDuration
  pub critical_before : SignedDuration

-- `Default`: 14 and 5 days.
abbrev pub default_thresholds : Thresholds
default_thresholds = record {
  warn_before = pos (14 * 24 * 3600 * second);
  critical_before = pos (5 * 24 * 3600 * second);
}

pub data State : Type 0 where
  expired critical warning unknown fine : State

unfoldable pub as_str : State → Bytes
as_str expired = codes "expired"
as_str critical = codes "critical"
as_str warning = codes "warning"
as_str unknown = codes "unknown"
as_str fine = codes "ok"

unfoldable pub parse : Bytes → Option State
parse s =
    if bytes_eq s (codes "expired")
    then some expired
    else if bytes_eq s (codes "critical")
    then some critical
    else if bytes_eq s (codes "warning")
    then some warning
    else if bytes_eq s (codes "unknown")
    then some unknown
    else if bytes_eq s (codes "ok")
    then some fine
    else none

-- `State::ALL`
abbrev pub all_states : List State
all_states = expired ∷ critical ∷ warning ∷ unknown ∷ fine ∷ []

pub data DeadlineKind : Type 0 where
  expiry max_age : DeadlineKind

pub record Schedule : Type 0 where
  pub last_rotated : Option Timestamp
  pub expires_at : Option Timestamp
  pub rotate_by : Option Timestamp
  pub deadline : Option (Timestamp × DeadlineKind)
  pub thresholds : Thresholds

abbrev rotate_by_of : Jiff → Option Timestamp → Option SignedDuration → Option Timestamp
rotate_by_of jiff (some at) (some age) = jiff.checked_add at age
rotate_by_of jiff (some at) none = none
rotate_by_of jiff none age = none

abbrev deadline_of : Option Timestamp → Option Timestamp → Option (Timestamp × DeadlineKind)
deadline_of (some e) (some r) = if ltb_ℤ r e then some (r, max_age) else some (e, expiry)
deadline_of (some e) none = some (e, expiry)
deadline_of none (some r) = some (r, max_age)
deadline_of none none = none

-- A duration of the spec; one that is missing or does not parse is no duration.
abbrev pub parsed : Jiff → Option Bytes → Option SignedDuration
parsed jiff text = and_then text (λ d. ok? (Duration.parse jiff d))

unfoldable pub compute : Jiff → ApiKey → Thresholds → Schedule
compute jiff key defaults =
    let last_rotated = and_then key.status (λ s. s.last_rotated) in
    let expires_at = and_then key.status (λ s. s.expires_at) in
    let policy = key.spec.rotation in
    let rotate_by = rotate_by_of jiff last_rotated (parsed jiff policy.max_age) in
    record {
      last_rotated = last_rotated;
      expires_at = expires_at;
      rotate_by = rotate_by;
      deadline = deadline_of expires_at rotate_by;
      thresholds = record {
        warn_before = unwrap_or (parsed jiff policy.warn_before) defaults.warn_before;
        critical_before = unwrap_or (parsed jiff policy.critical_before) defaults.critical_before;
      };
    }

unfoldable pub remaining : Jiff → Schedule → Timestamp → Option SignedDuration
remaining jiff s now = map_option (λ d. jiff.duration_since d.0 now) s.deadline

state_of : Thresholds → Option SignedDuration → State
state_of thresholds none = unknown
state_of thresholds (some r) =
    if leb_ℤ r (pos 0)
    then expired
    else if ltb_ℤ r thresholds.critical_before
    then critical
    else if ltb_ℤ r thresholds.warn_before
    then warning
    else fine

unfoldable pub state : Jiff → Schedule → Timestamp → State
unfolding state_of
state jiff s now = state_of s.thresholds (remaining jiff s now)
