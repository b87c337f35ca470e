-- ===== src/Rotator/Entry.antt =====
-- What a rotation writes into the status: `rotate_inner` of src/rotation.rs, the closure for
-- `update_status`, and the label and text of a failed probe.
use you_spin_me.Prelude.{
  ◌/◌, Bool, false, not, ◌&&◌, Option, none, some, List, [], ◌∷◌, ◌++◌, if◌then◌else◌, is_some,
  keep, any, Bytes, codes, bytes_eq, ℤ, pos, negsuc, ◌-ℤ◌, suc, ◌==◌, pos_part, neg_part,
}
use you_spin_me.Time.{Timestamp, Jiff}
use you_spin_me.Crd.{ApiKeyStatus, rotated, ProbeStatus, TargetStatus, succeeded, failed}
use you_spin_me.Providers.{ProbeError, rejected, unavailable}
use you_spin_me.Rotation.{
  apply_rotation, RotateRequest, ProbeOutcome, not_supported, skipped, checked, TargetOutcome,
}

-- Division of an `i64` by the seconds of a day, towards zero.
abbrev pub day_of : ℤ → ℤ
day_of (pos n) = pos (n / 86_400)
day_of (negsuc n) = pos 0 -ℤ pos (suc n / 86_400)

abbrev same_ℤ : ℤ → ℤ → Bool
same_ℤ a b = pos_part a == pos_part b && neg_part a == neg_part b

abbrev pub mismatch : Jiff → Option Timestamp → Option Timestamp → Bool
mismatch jiff (some p) (some m) =
    not (same_ℤ (day_of (jiff.as_second p)) (day_of (jiff.as_second m)))
mismatch jiff (some p) none = false
mismatch jiff none m = false

-- The text and label of a failed probe.
unfoldable pub show_probe_error : ProbeError → Bytes
show_probe_error (rejected e) = codes "the provider rejected the key: " ++ e
show_probe_error (unavailable e) = codes "could not check the key with the provider: " ++ e

abbrev pub probe_label : ProbeError → Bytes
probe_label (rejected e) = codes "rejected"
probe_label (unavailable e) = codes "error"

-- The status entry of one outcome.
abbrev pub entry_of : Timestamp → TargetOutcome → TargetStatus
entry_of now outcome = record {
  reference = outcome.reference;
  last_written = some now;
  result = if is_some outcome.error then failed else succeeded;
  message = outcome.error;
}

-- The entry replaces the first one of its reference, or is pushed.
unfoldable pub put_entry : TargetStatus → List TargetStatus → List TargetStatus
put_entry entry [] = entry ∷ []
put_entry entry (t ∷ ts) =
    if bytes_eq t.reference entry.reference then entry ∷ ts else t ∷ put_entry entry ts

unfoldable pub put_entries : Timestamp → List TargetOutcome → List TargetStatus → List TargetStatus
put_entries now [] ts = ts
put_entries now (outcome ∷ outcomes) ts =
    put_entries now outcomes (put_entry (entry_of now outcome) ts)

-- The closure that `rotate_inner` gives to `update_status`.
unfoldable pub record_outcomes :
    List Bytes
    → List TargetOutcome
    → Timestamp
    → RotateRequest
    → Option ProbeStatus
    → Bool
    → ApiKeyStatus
    → ApiKeyStatus
record_outcomes refs outcomes now req probed completed s =
    let kept = keep (λ t. any (λ r. bytes_eq r t.reference) refs) s.targets in
    let s' = record s { targets = put_entries now outcomes kept } in
    if completed then apply_rotation s' now req.actor rotated req.manual_expires_at probed else s'

abbrev pub probe_status : Timestamp → ProbeOutcome → Option ProbeStatus
probe_status now (checked r) =
    some (record { at = now; identity = r.identity; expires_at = r.expires_at })
probe_status now not_supported = none
probe_status now skipped = none
