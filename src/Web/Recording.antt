-- ===== src/Web/Recording.antt =====
-- A request that records a rotation succeeds: the program over the in-memory repository.
use you_spin_me.Prelude.{
  ◌≡◌, inl, inr, ap, ◌∙◌, arith, true, Result, Option, some, ok, Bytes, codes, ◌++◌, bytes_eq,
  if◌then◌else◌,
}
use you_spin_me.Time.{Timestamp}
use you_spin_me.Crd.{ApiKey}
use you_spin_me.Session.{AppError, Session, actor, provided, fresh_enough}
use you_spin_me.Repo.Memory.{MemoryRepository, get}
use you_spin_me.Repo.Memory.Laws.{with_status}
use you_spin_me.Rotation.Recording.{IsDated, recording, record_rotation-recorded}
use you_spin_me.Rotator.{World}
use you_spin_me.Login.{Jar}
use you_spin_me.Metrics
use you_spin_me.Pages.{Reply, redirect}
use you_spin_me.Pages.Forms.{RecordForm}
use you_spin_me.Pages.Actions.{csrf_header, dates_of}
use you_spin_me.Pages.Changes.{record_checked-recorded}
use you_spin_me.Web.{Response, Site, Visit, post, security_headers}
use you_spin_me.Web.Routes.{at_record, route_of}
use you_spin_me.Web.Serving.{admin, answer, origin, jiff, serve}
use you_spin_me.Web.Accountable.{in_memory}
use you_spin_me.Web.Completes.{served_record}

module _ {T W : Type 0} (site : Site T MemoryRepository W) (w : World MemoryRepository W)
    (x : Visit) (asked now : Timestamp) where
  -- A request to record a rotation by hand succeeds: a POST from the public origin, of an admin whose
  -- login is fresh enough, with the CSRF token of the session, for a key that is there, with dates
  -- that can be read, the rotation not in the future and the expiry not before it. It is answered by a
  -- redirect to the key's page, the cookies and the targets are as before, and so is every other key;
  -- the status of this key has the rotation, which is counted.
  pub serve-records :
      (raw name : Bytes) (session : Session) (form : RecordForm) (at : Timestamp)
      (expires_at : Option Timestamp) (key : ApiKey)
      → x.method ≡ post
      → x.origin ≡ some (origin site)
      → route_of x.path ≡ at_record raw
      → site.axum.decoded raw ≡ some name
      → admin site x asked ≡ ok session
      → x.record_form ≡ some form
      → provided (x.headers.get csrf_header) form.csrf ≡ session.csrf
      → fresh_enough (jiff site) session site.app.cfg.auth.step_up_max_age now ≡ true
      → dates_of site.app form now ≡ ok (at, expires_at)
      → IsDated at expires_at now
      → get w.repo name ≡ some key
      → ((serve (in_memory site) w x asked now).2
          ≡ security_headers x.path (
              site.axum.of_reply (
                redirect (
                  codes "/keys/" ++ (site.app.crates.urlencode name ++ codes "?notice=recorded")))))
        × ((serve (in_memory site) w x asked now).1 ≡ x.jar)
        × ((serve (in_memory site) w x asked now).0.store ≡ w.store)
        × ((serve (in_memory site) w x asked now).0.metrics
            ≡ Metrics.rotation w.metrics (codes "recorded"))
        × ((other : Bytes)
            → get (serve (in_memory site) w x asked now).0.repo other ≡ (
                if bytes_eq name other
                then some (with_status key (recording at (actor session) expires_at))
                else get w.repo other))
  serve-records raw name session form at expires_at key posted near routed named rights filled token
        fresh dates dated there =
      let served =
        served_record (in_memory site) w x asked now posted near raw name session rights named form
          routed filled token fresh in
      elim (record_rotation-recorded (jiff site) w.repo name (actor session) at expires_at now) [
        | inr (e, missing, _) ↦ absurd (ground (arith, missing dated))
        | inl (_, (found, here, result, change)) ↦
            let same : found ≡ key = ground arith in
            let made =
              record_checked-recorded (in_memory site).app w session name now form at expires_at _
                dates result in
            let all =
              served
              ∙ ap
                  (λ (a : World MemoryRepository W × Result AppError Reply).
                    (a.0, x.jar, security_headers x.path (answer site a.1)))
                  made in
            (
              ap (λ (a : World MemoryRepository W × Jar × Response). a.2) all,
              ap (λ (a : World MemoryRepository W × Jar × Response). a.1) all,
              ap (λ (a : World MemoryRepository W × Jar × Response). a.0.store) all,
              ap (λ (a : World MemoryRepository W × Jar × Response). a.0.metrics) all,
              λ other.
                  ap (λ (a : World MemoryRepository W × Jar × Response). get a.0.repo other) all
                  ∙ (change other
                      ∙ ap
                          (λ (k : ApiKey).
                            if bytes_eq name other
                            then some (with_status k (recording at (actor session) expires_at))
                            else get w.repo other)
                          same),
            )
      ]
