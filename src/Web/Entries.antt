-- ===== src/Web/Entries.antt =====
-- Who made the entries of the histories: the whole program over the in-memory repository, for any
-- sequence of requests.
use you_spin_me.Prelude.{
  ◌≡◌, ◌⊎◌, inl, inr, refl, true, false, Option, none, some, List, [], ◌∷◌, ok, Bool, Bytes,
  unwrap_or, All, Among, All-map, All-take, All-of_Among,
}
use you_spin_me.Time.{Timestamp}
use you_spin_me.Crd.{
  ApiKey, ApiKeyStatus, HistoryEntry, recorded, rotated, empty_status, ProbeStatus,
}
use you_spin_me.Session.{Session, actor, fresh_enough}
use you_spin_me.Repo.Memory.{MemoryRepository, get}
use you_spin_me.Rotation.{apply_rotation, TargetOutcome, RotateRequest}
use you_spin_me.Rotation.Recording.{IsDated, recording}
use you_spin_me.Rotator.{World, record_outcomes}
use you_spin_me.Rotator.Every.{Every}
use you_spin_me.Pages.Forms.{RecordForm, RotateForm}
use you_spin_me.Pages.Actions.{dates_of, request_of}
use you_spin_me.Web.{Site, Visit, post}
use you_spin_me.Web.Routes.{
  Route, at_index, at_key, at_record, at_rotate, at_login, at_callback, at_logout, at_asset,
  nowhere, route_of,
}
use you_spin_me.Web.Serving.{serve, origin, jiff}
use you_spin_me.Web.Guarded.{IsTrusted, IsRecord, IsRotate, MayChange, serve-MayChange}
use you_spin_me.Web.Accountable.{in_memory, record_checked-Every, rotate_checked-Every}

-- A request, with the two instants at which it reads the clock.
pub record Served : Type 0 where
  pub visit : Visit
  pub asked : Timestamp
  pub now : Timestamp

module _ {T W : Type 0} (site : Site T MemoryRepository W) where
  -- The program after these requests, the latest first.
  abbrev pub after : World MemoryRepository W → List Served → World MemoryRepository W
  after w [] = w
  after w (x ∷ past) = (serve (in_memory site) (after w past) x.visit x.asked x.now).0

  -- The request recorded the rotation by hand.
  pub record ByRecord (x : Served) (name : Bytes) (e : HistoryEntry) : Type 0 where
    pub raw : Bytes
    pub session : Session
    pub form : RecordForm
    pub routed : route_of x.visit.path ≡ at_record raw
    pub filled : x.visit.record_form ≡ some form
    pub trusted : IsTrusted (in_memory site) x.visit x.asked form.csrf raw session name
    pub fresh : fresh_enough (jiff site) session site.app.cfg.auth.step_up_max_age x.now ≡ true
    pub kind : e.kind ≡ recorded
    pub author : e.by ≡ actor session
    pub dates : dates_of site.app form x.now ≡ ok (e.at, e.expires_at)
    pub dated : IsDated e.at e.expires_at x.now

  -- The request submitted a new key.
  pub record ByRotate (x : Served) (name : Bytes) (e : HistoryEntry) : Type 0 where
    pub raw : Bytes
    pub session : Session
    pub form : RotateForm
    pub routed : route_of x.visit.path ≡ at_rotate raw
    pub filled : x.visit.rotate_form ≡ some form
    pub trusted : IsTrusted (in_memory site) x.visit x.asked form.csrf raw session name
    pub kind : e.kind ≡ rotated
    pub author : e.by ≡ actor session
    pub at : e.at ≡ x.now

  abbrev pub Makes : Served → Bytes → HistoryEntry → Type 0
  Makes x name e =
      (x.visit.method ≡ post)
      × (x.visit.origin ≡ some (origin site))
      × (ByRecord x name e ⊎ ByRotate x name e)

  -- The entry was there at the start, or one of the requests made it.
  abbrev pub ComesOf : MemoryRepository → List Served → Bytes → HistoryEntry → Type 0
  ComesOf start past name e =
      ((key : ApiKey) × (get start name ≡ some key)
        × Among e (unwrap_or key.status empty_status).history)
      ⊎ ((x : Served) × Among x past × Makes x name e)

  abbrev pub IsAccounted : MemoryRepository → List Served → Bytes → ApiKeyStatus → Type 0
  IsAccounted start past name s = All (ComesOf start past name) s.history

  ComesOf-later :
      (start : MemoryRepository) (x : Served) (past : List Served) (name : Bytes) (e : HistoryEntry)
      → ComesOf start past name e
      → ComesOf start (x ∷ past) name e
  ComesOf-later start x past name e (inl h) = inl h
  ComesOf-later start x past name e (inr (y, i, made)) = inr (y, inr i, made)

  module _ (start : MemoryRepository) (past : List Served) (name : Bytes) where
    recording-IsAccounted :
        (session : Session) (at : Timestamp) (expires_at : Option Timestamp) (s : ApiKeyStatus)
        → ComesOf start past name
            (record { at = at; by = actor session; kind = recorded; expires_at = expires_at })
        → IsAccounted start past name s
        → IsAccounted start past name (recording at (actor session) expires_at s)
    unfolding apply_rotation
    recording-IsAccounted session at none s c h =
        (c, All-take (ComesOf start past name) 9 s.history h)
    recording-IsAccounted session at (some t) s c h =
        (c, All-take (ComesOf start past name) 9 s.history h)

    record_outcomes-IsAccounted :
        (now : Timestamp) (req : RotateRequest)
        → ((expires_at : Option Timestamp)
            → ComesOf start past name
                (record { at = now; by = req.actor; kind = rotated; expires_at = expires_at }))
        → (refs : List Bytes) (os : List TargetOutcome) (probed : Option ProbeStatus)
          (completed : Bool) (s : ApiKeyStatus)
        → IsAccounted start past name s
        → IsAccounted start past name (record_outcomes refs os now req probed completed s)
    unfolding record_outcomes apply_rotation
    record_outcomes-IsAccounted now req c refs os probed true s h =
        (c _, All-take (ComesOf start past name) 9 s.history h)
    record_outcomes-IsAccounted now req c refs os probed false s h = h

  module _ (start : MemoryRepository) (past : List Served) (x : Served)
      (w w' : World MemoryRepository W) (posted : x.visit.method ≡ post)
      (near : x.visit.origin ≡ some (origin site))
      (before : Every (IsAccounted start (x ∷ past)) w.repo) where
    IsRecord-IsAccounted :
        (raw : Bytes)
        → route_of x.visit.path ≡ at_record raw
        → IsRecord (in_memory site) w x.visit x.asked x.now raw w'
        → Every (IsAccounted start (x ∷ past)) w'.repo
    IsRecord-IsAccounted raw routed h = rw h.result (
        record_checked-Every site.app (IsAccounted start (x ∷ past)) w h.session h.name x.now h.form
          (λ at expires_at s dates dated q.
            recording-IsAccounted start (x ∷ past) h.name h.session at expires_at s
              (inr (
                x,
                inl refl,
                (
                  posted,
                  near,
                  inl (record {
                    raw = raw;
                    session = h.session;
                    form = h.form;
                    routed = routed;
                    filled = h.filled;
                    trusted = h.trusted;
                    fresh = h.fresh;
                    kind = refl;
                    author = refl;
                    dates = dates;
                    dated = dated;
                  }),
                ),
              ))
              q)
          before)

    IsRotate-IsAccounted :
        (raw : Bytes)
        → route_of x.visit.path ≡ at_rotate raw
        → IsRotate (in_memory site) w x.visit x.asked x.now raw w'
        → Every (IsAccounted start (x ∷ past)) w'.repo
    IsRotate-IsAccounted raw routed h = rw h.result (
        rotate_checked-Every site.app (IsAccounted start (x ∷ past)) w h.session h.name x.now h.form
          (λ d.
            record_outcomes-IsAccounted start (x ∷ past) h.name x.now
              (request_of site.app h.session h.form d)
              (λ expires_at. inr (
                x,
                inl refl,
                (
                  posted,
                  near,
                  inr (record {
                    raw = raw;
                    session = h.session;
                    form = h.form;
                    routed = routed;
                    filled = h.filled;
                    trusted = h.trusted;
                    kind = refl;
                    author = refl;
                    at = refl;
                  }),
                ),
              )))
          before)

    MayChange-IsAccounted :
        (route : Route)
        → route_of x.visit.path ≡ route
        → MayChange (in_memory site) w x.visit x.asked x.now route w'
        → Every (IsAccounted start (x ∷ past)) w'.repo
    MayChange-IsAccounted (at_record raw) e h = IsRecord-IsAccounted raw e h
    MayChange-IsAccounted (at_rotate raw) e h = IsRotate-IsAccounted raw e h
    MayChange-IsAccounted at_index e h = absurd h
    MayChange-IsAccounted (at_key raw) e h = absurd h
    MayChange-IsAccounted at_login e h = absurd h
    MayChange-IsAccounted at_callback e h = absurd h
    MayChange-IsAccounted at_logout e h = absurd h
    MayChange-IsAccounted (at_asset raw) e h = absurd h
    MayChange-IsAccounted nowhere e h = absurd h

  Every-IsAccounted :
      (w0 : World MemoryRepository W) (past : List Served)
      → Every (IsAccounted w0.repo past) (after w0 past).repo
  Every-IsAccounted w0 [] =
      λ name key e. All-of_Among (ComesOf w0.repo [] name) _ (λ entry i. inl (key, e, i))
  Every-IsAccounted w0 (x ∷ past) =
      let earlier : Every (IsAccounted w0.repo (x ∷ past)) (after w0 past).repo = λ name key e.
        All-map (ComesOf w0.repo past name) (ComesOf w0.repo (x ∷ past) name) _
          (ComesOf-later w0.repo x past name) (Every-IsAccounted w0 past name key e) in
      elim (serve-MayChange (in_memory site) (after w0 past) x.visit x.asked x.now) [
        | inl same ↦ rw same earlier
        | inr (posted, near, h) ↦
            MayChange-IsAccounted w0.repo past x (after w0 past) _ posted near earlier _ refl h
      ]

  -- Whatever requests are served, every entry that a key's history has then was there at the start, or
  -- one of the requests made it: a POST from the public origin, of an admin whose session had the
  -- CSRF token that came with it, for this very key; the entry names that admin. It is either a
  -- recording, by a login fresh enough, with the dates of the form, neither in the future nor with an
  -- expiry before them, or a rotation, at the instant at which it was asked for.
  pub serve-IsAccounted :
      (w0 : World MemoryRepository W) (past : List Served) (name : Bytes) (key : ApiKey)
      → get (after w0 past).repo name ≡ some key
      → All (ComesOf w0.repo past name) (unwrap_or key.status empty_status).history
  serve-IsAccounted w0 past name key e = Every-IsAccounted w0 past name key e
