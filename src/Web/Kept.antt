-- ===== src/Web/Kept.antt =====
-- What every change of the world keeps, the whole program keeps, whatever it is asked: over any
-- repository.
use you_spin_me.Prelude.{inl, inr, Result-cases, Bytes}
use you_spin_me.Time.{Timestamp}
use you_spin_me.Session.{Session, actor}
use you_spin_me.Rotation.{record_rotation}
use you_spin_me.Rotator.{World}
use you_spin_me.Rotator.Kept.{Keeps, rotate-Kept, record_rotation-Kept}
use you_spin_me.Pages.{App}
use you_spin_me.Pages.Forms.{parse_date, RecordForm, RotateForm}
use you_spin_me.Pages.Actions.{dates_of, request_of, record_checked, rotate_checked}
use you_spin_me.Pages.Changes.{record_checked-undated, rotate_checked-undated, rotate_checked-world}
use you_spin_me.Web.{Site, Visit}
use you_spin_me.Web.Routes.{
  Route, at_index, at_key, at_record, at_rotate, at_login, at_callback, at_logout, at_asset,
  nowhere, route_of,
}
use you_spin_me.Web.Serving.{serve}
use you_spin_me.Web.Guarded.{MayChange, serve-MayChange}

module _ {R W : Type 0} (app : App R W) (P : World R W → Type 0)
    (keeps : Keeps app.rotator.repository P) (w : World R W) (session : Session) (name : Bytes)
    (now : Timestamp) (h : P w) where
  record_checked-Kept : (form : RecordForm) → P (record_checked app w session name form now).0
  unfolding record_checked
  record_checked-Kept form = elim (Result-cases (dates_of app form now)) [
    | inr (e, p) ↦ rw (record_checked-undated app w session name now form e p) h
    | inl ((at, expires_at), p) ↦
        let jiff = app.crates.views.crates.jiff in
        let recorded =
          record_rotation-Kept jiff app.rotator.repository P keeps w name (actor session) at
            expires_at now h in
        elim (Result-cases
          (record_rotation jiff app.rotator.repository w.repo name (actor session) at expires_at
            now).1) [
              | inr (e, q) ↦ rw (p, q, record_checked) recorded
              | inl (k, q) ↦ rw (p, q, record_checked) (keeps.counts _ _ recorded)
            ]
  ]

  rotate_checked-Kept : (form : RotateForm) → P (rotate_checked app w session name form now).0
  rotate_checked-Kept form = elim (Result-cases (parse_date app.crates form.expires_at)) [
    | inr (e, p) ↦ rw (rotate_checked-undated app w session name now form e p) h
    | inl (d, p) ↦
        rw (rotate_checked-world app w session name now form d p)
          (rotate-Kept app.rotator P keeps w name (request_of app session form d) now h)
  ]

module _ {T R W : Type 0} (site : Site T R W) (P : World R W → Type 0)
    (keeps : Keeps site.app.rotator.repository P) (w w' : World R W) (v : Visit)
    (asked now : Timestamp) (h : P w) where
  MayChange-Kept : (route : Route) → MayChange site w v asked now route w' → P w'
  MayChange-Kept (at_record raw) c =
      rw c.result (record_checked-Kept site.app P keeps w c.session c.name now h c.form)
  MayChange-Kept (at_rotate raw) c =
      rw c.result (rotate_checked-Kept site.app P keeps w c.session c.name now h c.form)
  MayChange-Kept at_index c = absurd c
  MayChange-Kept (at_key raw) c = absurd c
  MayChange-Kept at_login c = absurd c
  MayChange-Kept at_callback c = absurd c
  MayChange-Kept at_logout c = absurd c
  MayChange-Kept (at_asset raw) c = absurd c
  MayChange-Kept nowhere c = absurd c

-- What the single changes keep holds after any request, if it held before.
pub serve-Kept :
    {T R W : Type 0} (site : Site T R W) (P : World R W → Type 0)
    → Keeps site.app.rotator.repository P
    → (w : World R W) (v : Visit) (asked now : Timestamp) → P w
    → P (serve site w v asked now).0
serve-Kept site P keeps w v asked now h = elim (serve-MayChange site w v asked now) [
  | inl same ↦ rw same h
  | inr (_, _, changed) ↦ MayChange-Kept site P keeps w _ v asked now h (route_of v.path) changed
]
