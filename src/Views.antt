-- ===== src/Views.antt =====
-- View models (src/web/views.rs): a key as the row of a table, with texts for its instants.
pub mod Detail
pub mod Relative
pub mod Rows
pub mod Examples
use you_spin_me.Prelude.{
  ℕ, Bool, true, false, ◌||◌, Option, none, some, List, [], ◌∷◌, ◌++◌, if◌then◌else◌, length, keep,
  any, and_then, map_option, unwrap_or, Bytes, codes, bytes_eq, starts_with, ℤ, pos, ltb_ℤ,
}
use you_spin_me.Time.{Timestamp, SignedDuration, Jiff}
use you_spin_me.Duration.{humanize, abs}
use you_spin_me.Crd.{
  ApiKey, ApiKeyStatus, Condition, TargetStatus, TargetResult, succeeded, failed, as_str, key_name,
  display_name, condition,
}
use you_spin_me.Schedule
use you_spin_me.Schedule.{
  Thresholds, State, expired, critical, warning, unknown, fine, Schedule, DeadlineKind, expiry,
  max_age, compute, state,
}
use you_spin_me.Validation.{Crates}
use you_spin_me.KubeRepository.{valid_condition}

-- The crates, with two more functions outside the repository: `Display` of a parsed URL, and
-- `to_lowercase`, which depends on Unicode tables.
pub record Outside : Type 0 where
  pub crates : Crates
  pub url_text : Bytes → Bytes
  pub to_lowercase : Bytes → Bytes

-- The dash that stands for nothing.
abbrev pub dash : Bytes
dash = 0xe2 ∷ 0x80 ∷ 0x94 ∷ []

-- `str::contains` for a text.
unfoldable pub contains_text : Bytes → Bytes → Bool
contains_text [] q = starts_with [] q
contains_text (c ∷ s) q = starts_with (c ∷ s) q || contains_text s q

unfoldable pub relative : Jiff → Timestamp → Timestamp → Bytes
relative jiff t now =
    let d = jiff.duration_since t now in
    if ltb_ℤ (pos (abs d)) (jiff.from_secs (pos 60))
    then codes "now"
    else if ltb_ℤ (pos 0) d
    then codes "in " ++ humanize jiff d
    else humanize jiff d ++ codes " ago"

unfoldable pub safe_link : Outside → Bytes → Option Bytes
safe_link o url = and_then (o.crates.url_scheme url) (λ scheme.
    if bytes_eq scheme (codes "http") || bytes_eq scheme (codes "https")
    then some (o.url_text url)
    else none)

unfoldable pub state_label : State → Bytes
state_label expired = codes "Expired"
state_label critical = codes "Critical"
state_label warning = codes "Due soon"
state_label unknown = codes "Unknown"
state_label fine = codes "OK"

pub record KeyRow : Type 0 where
  pub name : Bytes
  pub display_name : Bytes
  pub provider : Bytes
  pub owner : Bytes
  pub state : State
  pub deadline : Option Timestamp
  pub deadline_date : Bytes
  pub deadline_rel : Bytes
  pub deadline_kind : Bytes
  pub last_rotated : Option Timestamp
  pub last_rotated_rel : Bytes
  pub targets_total : ℕ
  pub targets_failed : ℕ
  pub renew_url : Option Bytes
  pub valid : Bool

abbrev pub kind_text : Option (Timestamp × DeadlineKind) → Bytes
kind_text none = []
kind_text (some (t, expiry)) = codes "expiry"
kind_text (some (t, max_age)) = codes "max age"

abbrev pub is_failed : TargetResult → Bool
is_failed succeeded = false
is_failed failed = true

abbrev pub failed_count : Option ApiKeyStatus → ℕ
failed_count none = 0
failed_count (some s) = length (keep (λ t. is_failed t.result) s.targets)

abbrev pub is_valid : Option Condition → Bool
is_valid none = true
is_valid (some c) = bytes_eq c.status (codes "True")

-- `KeyRow::new`
unfoldable pub row_of : Outside → ApiKey → Thresholds → Timestamp → KeyRow
row_of o key thresholds now =
    let jiff = o.crates.jiff in
    let schedule = compute jiff key thresholds in
    let deadline = map_option (λ d. d.0) schedule.deadline in
    record {
      name = key_name key;
      display_name = display_name key;
      provider = as_str key.spec.provider;
      owner = unwrap_or key.spec.owner [];
      state = state jiff schedule now;
      deadline = deadline;
      deadline_date = unwrap_or (map_option jiff.fmt_date deadline) [];
      deadline_rel = unwrap_or (map_option (λ d. relative jiff d now) deadline) dash;
      deadline_kind = kind_text schedule.deadline;
      last_rotated = schedule.last_rotated;
      last_rotated_rel =
          unwrap_or (map_option (λ t. relative jiff t now) schedule.last_rotated) (codes "never");
      targets_total = length key.spec.targets;
      targets_failed = failed_count key.status;
      renew_url = and_then key.spec.renew_url (safe_link o);
      valid = is_valid (condition key valid_condition);
    }

-- `KeyRow::state_str` and `KeyRow::state_label`.
abbrev pub row_state_str : KeyRow → Bytes
row_state_str r = Schedule.as_str r.state

abbrev pub row_state_label : KeyRow → Bytes
row_state_label r = state_label r.state

-- `KeyRow::matches`: ignoring case, in any of four texts.
unfoldable pub matches : Outside → KeyRow → Bytes → Bool
matches o r q =
    any (λ f. contains_text (o.to_lowercase f) (o.to_lowercase q))
      (r.name ∷ r.display_name ∷ r.owner ∷ r.provider ∷ [])
