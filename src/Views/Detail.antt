-- ===== src/Views/Detail.antt =====
-- `KeyDetail` of src/web/views.rs: what the page of one key shows.
use you_spin_me.Prelude.{
  Bool, false, not, Option, none, some, List, [], ◌∷◌, map, if◌then◌else◌, and_then, map_option,
  unwrap_or, Bytes, codes, bytes_eq,
}
use you_spin_me.Time.{Timestamp, Jiff}
use you_spin_me.Duration.{humanize}
use you_spin_me.Crd.{
  ApiKey, ApiKeyStatus, empty_status, TargetSpec, target_reference, TargetStatus, TargetResult,
  succeeded, failed, HistoryEntry, HistoryKind, rotated, recorded, Condition, ExpirySource, probe,
  manual, unset, label,
}
use you_spin_me.Schedule.{Thresholds, compute}
use you_spin_me.Views.{Outside, KeyRow, row_of, relative, dash}

pub record TargetRow : Type 0 where
  pub reference : Bytes
  pub result : Bytes
  pub last_written : Bytes
  pub message : Bytes

pub record HistoryRow : Type 0 where
  pub at : Bytes
  pub by : Bytes
  pub kind : Bytes
  pub expires : Bytes

pub record ConditionRow : Type 0 where
  pub type_ : Bytes
  pub ok : Bool
  pub reason : Bytes
  pub message : Bytes

pub record KeyDetail : Type 0 where
  pub row : KeyRow
  pub permissions : List Bytes
  pub notes : Bytes
  pub consumers : List Bytes
  pub expires_at : Bytes
  pub expires_source : Bytes
  pub manual_expires_at : Bytes
  pub rotate_by : Bytes
  pub max_age : Bytes
  pub warn_before : Bytes
  pub critical_before : Bytes
  pub rotated_by : Bytes
  pub last_rotated_date : Bytes
  pub probe_identity : Bytes
  pub probe_expiry : Bytes
  pub probe_at : Bytes
  pub expiry_mismatch : Bool
  pub targets : List TargetRow
  pub history : List HistoryRow
  pub conditions : List ConditionRow

-- The first entry of a reference.
unfoldable pub find_status : Bytes → List TargetStatus → Option TargetStatus
find_status r [] = none
find_status r (s ∷ ss) = if bytes_eq s.reference r then some s else find_status r ss

abbrev pub result_text : Option TargetResult → Bytes
result_text none = codes "never written"
result_text (some succeeded) = codes "ok"
result_text (some failed) = codes "failed"

-- The closure over the targets.
unfoldable pub target_row : Jiff → ApiKeyStatus → Timestamp → TargetSpec → TargetRow
target_row jiff status now t =
    let reference = target_reference t in
    let st = find_status reference status.targets in
    record {
      reference = reference;
      result = result_text (map_option (λ s. s.result) st);
      last_written =
          unwrap_or (map_option (λ w. relative jiff w now) (and_then st (λ s. s.last_written))) [];
      message = unwrap_or (and_then st (λ s. s.message)) [];
    }

abbrev pub source_text : Option ExpirySource → Bytes
source_text none = []
source_text (some probe) = codes "detected from the provider"
source_text (some manual) = codes "entered by hand"
source_text (some unset) = []

abbrev pub kind_text : HistoryKind → Bytes
kind_text rotated = codes "Rotated"
kind_text recorded = codes "Recorded"

abbrev pub history_row : Jiff → HistoryEntry → HistoryRow
history_row jiff h = record {
  at = jiff.fmt_datetime h.at;
  by = label h.by;
  kind = kind_text h.kind;
  expires = unwrap_or (map_option jiff.fmt_date h.expires_at) dash;
}

abbrev pub condition_row : Condition → ConditionRow
condition_row c = record {
  type_ = c.type_;
  ok = bytes_eq c.status (codes "True");
  reason = c.reason;
  message = c.message;
}

-- Two dates that are there and differ.
abbrev pub dates_differ : Jiff → Option Timestamp → Option Timestamp → Bool
dates_differ jiff (some p) (some m) = not (bytes_eq (jiff.fmt_date p) (jiff.fmt_date m))
dates_differ jiff (some p) none = false
dates_differ jiff none m = false

-- `KeyDetail::new`
unfoldable pub detail_of : Outside → ApiKey → Thresholds → Timestamp → KeyDetail
detail_of o key thresholds now =
    let jiff = o.crates.jiff in
    let schedule = compute jiff key thresholds in
    let status = unwrap_or key.status empty_status in
    let probe_expiry = and_then status.probe (λ p. p.expires_at) in
    let text : Option Bytes → Bytes = λ t. unwrap_or t [] in
    record {
      row = row_of o key thresholds now;
      permissions = key.spec.setup.permissions;
      notes = text key.spec.setup.notes;
      consumers = key.spec.consumers;
      expires_at = text (map_option jiff.fmt_datetime schedule.expires_at);
      expires_source = source_text status.expires_at_source;
      manual_expires_at = text (map_option jiff.fmt_date status.manual_expires_at);
      rotate_by = text (map_option jiff.fmt_datetime schedule.rotate_by);
      max_age = text key.spec.rotation.max_age;
      warn_before = humanize jiff schedule.thresholds.warn_before;
      critical_before = humanize jiff schedule.thresholds.critical_before;
      rotated_by = text (map_option label status.rotated_by);
      last_rotated_date = text (map_option jiff.fmt_datetime schedule.last_rotated);
      probe_identity = text (and_then status.probe (λ p. p.identity));
      probe_expiry = text (map_option jiff.fmt_date probe_expiry);
      probe_at = text (map_option (λ p. jiff.fmt_datetime p.at) status.probe);
      expiry_mismatch = dates_differ jiff probe_expiry status.manual_expires_at;
      targets = map (target_row jiff status now) key.spec.targets;
      history = map (history_row jiff) status.history;
      conditions = map condition_row status.conditions;
    }
