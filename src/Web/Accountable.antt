-- ===== src/Web/Accountable.antt =====
-- Where the entries of the histories come from: the whole program over the in-memory repository, for
-- any sequence of requests.
use you_spin_me.Prelude.{◌≡◌, inl, inr, Option, Result-cases, ok, Bytes}
use you_spin_me.Time.{Timestamp}
use you_spin_me.Crd.{ApiKeyStatus}
use you_spin_me.Session.{Session, actor}
use you_spin_me.Repo.Memory.{MemoryRepository, memory}
use you_spin_me.Rotation.Recording.{IsDated, recording}
use you_spin_me.Rotator.{World}
use you_spin_me.Rotator.Every.{Every, KeptByRotate, rotate-Every, record_rotation-Every}
use you_spin_me.Pages.{App}
use you_spin_me.Pages.Forms.{parse_date, RecordForm, RotateForm}
use you_spin_me.Pages.Actions.{dates_of, request_of, record_checked, rotate_checked}
use you_spin_me.Pages.Changes.{
  record_checked-undated, record_checked-repo, rotate_checked-undated, rotate_checked-world,
}
use you_spin_me.Web.{Site}

-- A program with its keys in memory.
abbrev pub in_memory : {T W : Type 0} → Site T MemoryRepository W → Site T MemoryRepository W
in_memory site = record site {
  app = record site.app { rotator = record site.app.rotator { repository = memory } };
}

abbrev pub with_memory : {W : Type 0} → App MemoryRepository W → App MemoryRepository W
with_memory app = record app { rotator = record app.rotator { repository = memory } }

module _ {W : Type 0} (app : App MemoryRepository W) (Q : Bytes → ApiKeyStatus → Type 0)
    (w : World MemoryRepository W) (session : Session) (name : Bytes) (now : Timestamp) where
  pub record_checked-Every :
      (form : RecordForm)
      → ((at : Timestamp) (expires_at : Option Timestamp) (s : ApiKeyStatus)
          → dates_of app form now ≡ ok (at, expires_at)
          → IsDated at expires_at now
          → Q name s
          → Q name (recording at (actor session) expires_at s))
      → Every Q w.repo
      → Every Q (record_checked (with_memory app) w session name form now).0.repo
  record_checked-Every form keeps h = elim (Result-cases (dates_of app form now)) [
    | inr (e, p) ↦ rw (record_checked-undated (with_memory app) w session name now form e p) h
    | inl ((at, expires_at), p) ↦
        rw (record_checked-repo (with_memory app) w session name now form at expires_at p) (
          record_rotation-Every Q app.crates.views.crates.jiff w.repo name (actor session) at
            expires_at now (λ s dated q. keeps at expires_at s p dated q) h)
  ]

  pub rotate_checked-Every :
      (form : RotateForm)
      → ((d : Option Timestamp)
          → KeptByRotate app.rotator.crates app.rotator.writer app.rotator.prober
              app.rotator.allowed Q name now
              (request_of app session form d))
      → Every Q w.repo
      → Every Q (rotate_checked (with_memory app) w session name form now).0.repo
  rotate_checked-Every form keeps h = elim (Result-cases (parse_date app.crates form.expires_at)) [
    | inr (e, p) ↦ rw (rotate_checked-undated (with_memory app) w session name now form e p) h
    | inl (d, p) ↦ rw (rotate_checked-world (with_memory app) w session name now form d p) (
        rotate-Every app.rotator.crates app.rotator.writer app.rotator.prober app.rotator.allowed Q
          name now w (request_of app session form d) (keeps d) h)
  ]
