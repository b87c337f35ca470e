-- ===== src/Rotation/Coherent.antt =====
-- The invariant of the status that this program writes.
use you_spin_me.Prelude.{
  ◌≡◌, ◌≤◌, refl, arith, Option, none, some, List, [], ◌∷◌, length, length-take-le, take,
}
use you_spin_me.Time.{Timestamp}
use you_spin_me.Crd.{
  ApiKeyStatus, empty_status, Actor, HistoryKind, HistoryEntry, history_limit, ExpirySource, probe,
  manual, unset, ProbeStatus, TargetStatus,
}
use you_spin_me.Rotation.{apply_rotation, effective, probed_expiry}

-- The newest entry of the history is the last rotation.
abbrev pub IsNewest : Option Timestamp → ApiKeyStatus → Type 0
IsNewest none s = (s.history ≡ []) × (s.expires_at ≡ none) × (s.rotated_by ≡ none)
IsNewest (some at) s =
    (entry : HistoryEntry) × (older : List HistoryEntry) × (s.history ≡ entry ∷ older)
    × (entry.at ≡ at)
    × (s.rotated_by ≡ some entry.by)
    × (s.expires_at ≡ entry.expires_at)

-- The expiry is the one that its recorded source has.
abbrev pub IsSourced : Option ExpirySource → ApiKeyStatus → Type 0
IsSourced none s = s.expires_at ≡ none
IsSourced (some probe) s =
    (t : Timestamp) × (s.expires_at ≡ some t) × (probed_expiry s.probe ≡ some t)
IsSourced (some manual) s =
    (t : Timestamp) × (s.expires_at ≡ some t)
    × (s.manual_expires_at ≡ some t)
    × (probed_expiry s.probe ≡ none)
IsSourced (some unset) s =
    (s.expires_at ≡ none) × (s.manual_expires_at ≡ none) × (probed_expiry s.probe ≡ none)

pub record IsCoherent (s : ApiKeyStatus) : Type 0 where
  pub bounded : length s.history ≤ history_limit
  pub newest : IsNewest s.last_rotated s
  pub sourced : IsSourced s.expires_at_source s

pub empty-IsCoherent : IsCoherent empty_status
empty-IsCoherent = record { bounded = omega arith; newest = (refl, refl, refl); sourced = refl }

-- A status with the effective expiry of what was probed and entered.
IsSourced-effective :
    (s : ApiKeyStatus) (p m : Option Timestamp)
    → probed_expiry s.probe ≡ p
    → s.manual_expires_at ≡ m
    → s.expires_at ≡ (effective p m).0
    → s.expires_at_source ≡ some (effective p m).1
    → IsSourced s.expires_at_source s
IsSourced-effective s (some p) m ep em ee es = rw es (p, ee, ep)
IsSourced-effective s none (some m) ep em ee es = rw es (m, ee, em, ep)
IsSourced-effective s none none ep em ee es = rw es (ee, em, ep)

-- Whatever the status was, after a rotation the history holds at most ten entries and starts with
-- this rotation, and the expiry is the probed one if there is one, else the manual one, as its
-- source says.
pub apply_rotation-IsCoherent :
    (s : ApiKeyStatus) (at : Timestamp) (by : Actor) (kind : HistoryKind)
    (manual_at : Option Timestamp) (probed : Option ProbeStatus)
    → IsCoherent (apply_rotation s at by kind manual_at probed)
unfolding apply_rotation
apply_rotation-IsCoherent s at by kind manual_at probed = record {
  bounded = omega (arith, length-take-le 9 s.history);
  newest = (_, take 9 s.history, refl, refl, refl, refl);
  sourced =
      IsSourced-effective (apply_rotation s at by kind manual_at probed) (probed_expiry probed)
        manual_at refl refl refl refl;
}

IsNewest-with_targets :
    (last : Option Timestamp) (s : ApiKeyStatus) (ts : List TargetStatus)
    → IsNewest last s
    → IsNewest last (record s { targets = ts })
IsNewest-with_targets none s ts h = h
IsNewest-with_targets (some at) s ts h = h

IsSourced-with_targets :
    (source : Option ExpirySource) (s : ApiKeyStatus) (ts : List TargetStatus)
    → IsSourced source s
    → IsSourced source (record s { targets = ts })
IsSourced-with_targets none s ts h = h
IsSourced-with_targets (some probe) s ts h = h
IsSourced-with_targets (some manual) s ts h = h
IsSourced-with_targets (some unset) s ts h = h

-- The target entries play no part in it.
pub with_targets-IsCoherent :
    (s : ApiKeyStatus) (ts : List TargetStatus)
    → IsCoherent s
    → IsCoherent (record s { targets = ts })
with_targets-IsCoherent s ts h = record {
  bounded = h.bounded;
  newest = IsNewest-with_targets s.last_rotated s ts h.newest;
  sourced = IsSourced-with_targets s.expires_at_source s ts h.sourced;
}
