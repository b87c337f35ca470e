-- ===== src/Web/Statuses.antt =====
-- A property of all statuses that recording and rotating keep, over any sequence of requests to the
-- program with its keys in memory.
use you_spin_me.Prelude.{inl, inr, Bool, Option, List, [], ◌∷◌, Bytes}
use you_spin_me.Time.{Timestamp}
use you_spin_me.Crd.{Actor, ApiKeyStatus, ProbeStatus}
use you_spin_me.Session.{actor}
use you_spin_me.Repo.Memory.{MemoryRepository}
use you_spin_me.Rotation.{RotateRequest, TargetOutcome}
use you_spin_me.Rotation.Recording.{recording}
use you_spin_me.Rotator.{World, record_outcomes}
use you_spin_me.Rotator.Every.{Every}
use you_spin_me.Pages.Actions.{request_of}
use you_spin_me.Web.{Site}
use you_spin_me.Web.Routes.{
  Route, at_index, at_key, at_record, at_rotate, at_login, at_callback, at_logout, at_asset,
  nowhere,
}
use you_spin_me.Web.Guarded.{IsRecord, IsRotate, MayChange, serve-MayChange}
use you_spin_me.Web.Accountable.{in_memory, record_checked-Every, rotate_checked-Every}
use you_spin_me.Web.Entries.{Served, after}

-- The two operations on a status keep the property.
pub record KeptByBoth (Q : ApiKeyStatus → Type 0) : Type 0 where
  pub records :
      (at : Timestamp) (by : Actor) (expires_at : Option Timestamp) (s : ApiKeyStatus)
      → Q s
      → Q (recording at by expires_at s)
  pub rotates :
      (now : Timestamp) (req : RotateRequest) (refs : List Bytes) (os : List TargetOutcome)
      (probed : Option ProbeStatus) (completed : Bool) (s : ApiKeyStatus)
      → Q s
      → Q (record_outcomes refs os now req probed completed s)

module _ {T W : Type 0} (site : Site T MemoryRepository W) (Q : ApiKeyStatus → Type 0)
    (keeps : KeptByBoth Q) where
  module _ (w w' : World MemoryRepository W) (x : Served) (before : Every (λ _. Q) w.repo) where
    IsRecord-Every :
        (raw : Bytes)
        → IsRecord (in_memory site) w x.visit x.asked x.now raw w'
        → Every (λ _. Q) w'.repo
    IsRecord-Every raw h = rw h.result (
        record_checked-Every site.app (λ _. Q) w h.session h.name x.now h.form
          (λ at expires_at s _ _ q. keeps.records at (actor h.session) expires_at s q) before)

    IsRotate-Every :
        (raw : Bytes)
        → IsRotate (in_memory site) w x.visit x.asked x.now raw w'
        → Every (λ _. Q) w'.repo
    IsRotate-Every raw h = rw h.result (
        rotate_checked-Every site.app (λ _. Q) w h.session h.name x.now h.form
          (λ d. keeps.rotates x.now (request_of site.app h.session h.form d)) before)

    MayChange-Every :
        (route : Route)
        → MayChange (in_memory site) w x.visit x.asked x.now route w'
        → Every (λ _. Q) w'.repo
    MayChange-Every (at_record raw) h = IsRecord-Every raw h
    MayChange-Every (at_rotate raw) h = IsRotate-Every raw h
    MayChange-Every at_index h = absurd h
    MayChange-Every (at_key raw) h = absurd h
    MayChange-Every at_login h = absurd h
    MayChange-Every at_callback h = absurd h
    MayChange-Every at_logout h = absurd h
    MayChange-Every (at_asset raw) h = absurd h
    MayChange-Every nowhere h = absurd h

  pub serve-Every :
      (w0 : World MemoryRepository W) (past : List Served)
      → Every (λ _. Q) w0.repo
      → Every (λ _. Q) (after site w0 past).repo
  serve-Every w0 [] h = h
  serve-Every w0 (x ∷ past) h =
      let earlier = serve-Every w0 past h in
      elim (serve-MayChange (in_memory site) (after site w0 past) x.visit x.asked x.now) [
        | inl same ↦ rw same earlier
        | inr (_, _, changed) ↦ MayChange-Every (after site w0 past) _ x earlier _ changed
      ]
