-- ===== src/Pages/Forms.antt =====
-- The two forms on the page of a key (src/web/pages.rs), how they are read, and the texts of errors.
use you_spin_me.Prelude.{
  Option, none, some, [], ◌++◌, is_nil, map_option, unwrap_or, if◌then◌else◌, Result, ok, err,
  Bytes, codes, bytes_eq, trim,
}
use you_spin_me.Time.{Timestamp, Jiff}
use you_spin_me.Repo.{RepoError, not_found, conflict, kube}
use you_spin_me.Rotation
use you_spin_me.Rotation.{
  RecordError, future_date, expiry_before_rotation, repo, record_rotation, RotateRequest,
  ProbeOutcome, not_supported, skipped, checked, RotateOutcome, RotateError, empty, no_targets,
  invalid_spec, probe_failed, status,
}
use you_spin_me.Rotator.{show_probe_error}
use you_spin_me.Session
use you_spin_me.Session.{AppError, bad_request, internal, Session, actor, check_csrf, fresh_enough}
use you_spin_me.Pages.{Crates}

-- `Display` of the errors.
unfoldable pub show_repo_error : (debug : Bytes → Bytes) → RepoError → Bytes
show_repo_error debug (not_found name) = codes "ApiKey " ++ (debug name ++ codes " not found")
show_repo_error debug conflict = codes "conflicting concurrent update, try again"
show_repo_error debug (kube e) = codes "kubernetes API error: " ++ e

unfoldable pub show_record_error : (debug : Bytes → Bytes) → RecordError → Bytes
show_record_error debug future_date = codes "the rotation date is in the future"
show_record_error debug expiry_before_rotation = codes "the expiry date is before the rotation date"
show_record_error debug (repo e) = show_repo_error debug e

unfoldable pub show_rotate_error : (debug : Bytes → Bytes) → RotateError → Bytes
show_rotate_error debug (Rotation.not_found name) = codes "no API key named " ++ debug name
show_rotate_error debug empty = codes "the key is empty"
show_rotate_error debug no_targets = codes "this key has no targets; use Record rotation instead"
show_rotate_error debug (invalid_spec problems) = codes "the ApiKey spec is invalid: " ++ problems
show_rotate_error debug (probe_failed e) = show_probe_error e
show_rotate_error debug (status e) =
    codes "the key was written, but saving its status failed: " ++ show_repo_error debug e

-- What `record` answers to an error.
unfoldable pub app_error_of : (debug : Bytes → Bytes) → RecordError → AppError
app_error_of debug (repo (not_found name)) =
    Session.not_found (show_repo_error debug (not_found name))
app_error_of debug (repo conflict) = internal (show_repo_error debug conflict)
app_error_of debug (repo (kube e)) = internal (show_repo_error debug (kube e))
app_error_of debug future_date = bad_request (show_record_error debug future_date)
app_error_of debug expiry_before_rotation =
    bad_request (show_record_error debug expiry_before_rotation)

-- `Display` of `AppError`.
abbrev pub message_of : AppError → Bytes
message_of (Session.not_found m) = m
message_of (Session.bad_request m) = m
message_of (Session.unauthorized m) = m
message_of (Session.forbidden m) = m
message_of (Session.upstream m) = m
message_of (Session.internal m) = m

unfoldable pub parse_date : Crates → Bytes → Result AppError (Option Timestamp)
parse_date crates value =
    let v = trim value in
    if is_nil v then ok none else elim (crates.midnight v) [
      | ok t ↦ ok (some t)
      | err none ↦ err (bad_request (codes "invalid date " ++ crates.views.crates.debug v))
      | err (some e) ↦ err (bad_request e)
    ]

-- Recording "today" means now.
abbrev pub rotated_at_of : Jiff → Option Timestamp → Timestamp → Timestamp
rotated_at_of jiff none now = now
rotated_at_of jiff (some d) now = if bytes_eq (jiff.fmt_date d) (jiff.fmt_date now) then now else d

abbrev pub notice_of : Bytes → Bytes
notice_of q =
    if bytes_eq q (codes "recorded")
    then codes "Rotation recorded."
    else if bytes_eq q (codes "reauth")
    then codes "You logged in again. Record the rotation once more."
    else []

pub record RecordForm : Type 0 where
  pub csrf : Option Bytes
  pub rotated_at : Bytes
  pub expires_at : Bytes

pub record RotateForm : Type 0 where
  pub csrf : Option Bytes
  pub key : Bytes
  pub expires_at : Bytes
  pub skip_verification : Option Bytes

-- `RotateResult::probe_line`
unfoldable pub probe_line : Jiff → Option RotateOutcome → Bytes
probe_line jiff none = []
probe_line jiff (some o) = elim o.probe [
  | not_supported ↦ []
  | skipped ↦ codes "Verification skipped."
  | checked r ↦
      let who =
        unwrap_or (map_option (λ i. codes "belongs to " ++ i) r.identity) (codes "is valid") in
      let expiry =
        unwrap_or (map_option (λ e. codes ", expires " ++ jiff.fmt_date e) r.expires_at)
          (codes ", no expiry reported") in
      codes "Checked with the provider: the key " ++ (who ++ (expiry ++ codes "."))
]
