-- ===== src/Rotator/Reachable.antt =====
-- The statuses of the in-memory repository, over any sequence of rotations and recordings.
use you_spin_me.Prelude.{Bool, true, false, Option, none, List, Bytes}
use you_spin_me.Time.{Timestamp, Jiff}
use you_spin_me.Crd.{ApiKeyStatus, Actor, ProbeStatus}
use you_spin_me.Validation.{Crates}
use you_spin_me.Glob.{PathAllowList}
use you_spin_me.Providers.{Prober}
use you_spin_me.Targets.{TargetWriter}
use you_spin_me.Repo.Memory.{MemoryRepository, memory}
use you_spin_me.Rotation.{record_rotation, RotateRequest, TargetOutcome}
use you_spin_me.Rotation.Coherent.{IsCoherent, with_targets-IsCoherent, apply_rotation-IsCoherent}
use you_spin_me.Rotator.Records.{over_memory}
use you_spin_me.Rotator.Every.{Every, rotate-Every, record_rotation-Every}
use you_spin_me.Rotator.{Rotator, World, record_outcomes, rotate}

-- The status of every key is coherent.
abbrev pub IsSound : MemoryRepository → Type 0
IsSound = Every (λ _. IsCoherent)

pub record_outcomes-IsCoherent :
    (now : Timestamp) (req : RotateRequest) (refs : List Bytes) (os : List TargetOutcome)
    (probed : Option ProbeStatus) (completed : Bool) (s : ApiKeyStatus)
    → IsCoherent s
    → IsCoherent (record_outcomes refs os now req probed completed s)
unfolding record_outcomes
record_outcomes-IsCoherent now req refs os probed true s h =
    apply_rotation-IsCoherent _ now req.actor _ req.manual_expires_at probed
record_outcomes-IsCoherent now req refs os probed false s h = with_targets-IsCoherent s _ h

module _ {W : Type 0} (crates : Crates) (writer : TargetWriter W) (prober : Prober)
    (allowed : PathAllowList) where
  abbrev self : Rotator MemoryRepository W
  self = over_memory crates writer prober allowed

  -- What admins can do: submit a key, or record a rotation. Targets, metrics and time are arbitrary.
  pub data Step (jiff : Jiff) : MemoryRepository → MemoryRepository → Type 0 where
    submits :
        (w : World MemoryRepository W) (name : Bytes) (req : RotateRequest) (now : Timestamp)
        → Step jiff w.repo (rotate self w name req now).0.repo
    records :
        (r : MemoryRepository) (name : Bytes) (actor : Actor) (at : Timestamp)
        (expires_at : Option Timestamp) (now : Timestamp)
        → Step jiff r (record_rotation jiff memory r name actor at expires_at now).0

  pub data Reach (jiff : Jiff) (r : MemoryRepository) : MemoryRepository → Type 0 where
    here : Reach jiff r r
    next : {s t : MemoryRepository} → Reach jiff r s → Step jiff s t → Reach jiff r t

  Step-IsSound : (jiff : Jiff) {r s : MemoryRepository} → Step jiff r s → IsSound r → IsSound s
  Step-IsSound jiff (submits w name req now) h =
      rotate-Every crates writer prober allowed (λ _. IsCoherent) name now w req
        (record_outcomes-IsCoherent now req) h
  Step-IsSound jiff (records r name actor at expires_at now) h =
      record_rotation-Every (λ _. IsCoherent) jiff r name actor at expires_at now
        (λ s _ _. apply_rotation-IsCoherent s at actor _ expires_at none) h

  -- Whatever admins submit and record, and whatever writer and prober answer: every status stays
  -- coherent if all were at the start. So no history ever exceeds ten entries, and the effective expiry
  -- is always the one of the last rotation.
  pub Reach-IsSound :
      (jiff : Jiff) {r s : MemoryRepository} → IsSound r → Reach jiff r s → IsSound s
  Reach-IsSound jiff h here = h
  Reach-IsSound jiff h (next steps step) = Step-IsSound jiff step (Reach-IsSound jiff h steps)
