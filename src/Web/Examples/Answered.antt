-- ===== src/Web/Examples/Answered.antt =====
-- A request to rotate a key and one to record a rotation, which both succeed.
use you_spin_me.Prelude.{
  ◌≡◌, refl, inr, arith, true, false, some, none, [], ok, ◌++◌, is_nil, trim, Bytes, codes, pos,
  bytes_eq, if◌then◌else◌,
}
use you_spin_me.Glob.{allow_all}
use you_spin_me.Validation.{validate}
use you_spin_me.Validation.Examples.{validation, plain_crates}
use you_spin_me.Session.{actor, fresh_enough}
use you_spin_me.Login.Examples.{session}
use you_spin_me.Metrics
use you_spin_me.Repo.Memory
use you_spin_me.Repo.Memory.Laws.{with_status}
use you_spin_me.Rotation.{RotateOutcome}
use you_spin_me.Rotation.Recording.{recording}
use you_spin_me.Rotator.Examples.{key, before, accepts}
use you_spin_me.Rotator.Records.{Records}
use you_spin_me.Pages.{redirect, rendered, rotate_result}
use you_spin_me.Pages.Forms.{parse_date, RotateForm, RecordForm}
use you_spin_me.Pages.Actions.{request_of, result_of, outcome_headers, dates_of}
use you_spin_me.Web.{Visit, security_headers}
use you_spin_me.Web.Routes.{at_rotate, at_record, route_of}
use you_spin_me.Web.Serving.{admin, answer, jiff, serve}
use you_spin_me.Web.Accountable.{in_memory}
use you_spin_me.Web.Rotating.{serve-rotates}
use you_spin_me.Web.Recording.{serve-records}
use you_spin_me.Web.Examples.{site, good, serving}

-- What the checks of the good request read.
good_request :
    (route_of good.path ≡ at_rotate (codes "bot"))
    × (admin site good (pos 0) ≡ ok session)
    × (parse_date site.app.crates [] ≡ ok none)
    × (Memory.get before.repo (codes "bot") ≡ some key)
    × (is_nil (trim (codes "s3cret")) ≡ false)
    × (validate plain_crates key.spec allow_all ≡ [])
    × (accepts key.spec.provider (codes "s3cret")
        ≡ ok (some (record { expires_at = some (pos 9); identity = none })))
unfolding serving Memory.get Memory.lookup validation
good_request = (refl, refl, refl, refl, refl, refl, refl)

abbrev rotate_form : RotateForm
rotate_form = record {
  csrf = some (codes "tok");
  key = codes "s3cret";
  expires_at = [];
  skip_verification = none;
}

serve-rotates_example :
    (o : RotateOutcome) × ((serve (in_memory site) before good (pos 0) (pos 7)).2
      ≡ security_headers good.path (
          answer site (
            rendered site.app.crates
              (outcome_headers site.app o)
              (rotate_result (result_of site.app (codes "bot") key.spec.consumers [] (some o))))))
    × ((serve (in_memory site) before good (pos 0) (pos 7)).1 ≡ good.jar)
    × Records site.app.rotator.writer before
        (serve (in_memory site) before good (pos 0) (pos 7)).0
        (codes "bot")
        (request_of site.app session rotate_form none)
        (pos 7)
        key
        o
serve-rotates_example =
    let (routed, rights, dates, there, full, valid, accepted) = good_request in
    serve-rotates site before good (pos 0) (pos 7) (codes "bot") (codes "bot") session rotate_form
      none key refl refl routed refl rights refl refl dates there full refl valid
      (inr (inr (_, accepted)))

abbrev record_form : RecordForm
record_form = record { csrf = some (codes "tok"); rotated_at = []; expires_at = [] }

abbrev recorder : Visit
recorder = record good { path = codes "/keys/bot/record"; record_form = some record_form }

record_request :
    (route_of recorder.path ≡ at_record (codes "bot"))
    × (admin site recorder (pos 0) ≡ ok session)
    × (fresh_enough (jiff site) session site.app.cfg.auth.step_up_max_age (pos 7) ≡ true)
    × (dates_of site.app record_form (pos 7) ≡ ok (pos 7, none))
unfolding serving fresh_enough
record_request = (refl, refl, refl, refl)

serve-records_example :
    ((serve (in_memory site) before recorder (pos 0) (pos 7)).2
      ≡ security_headers recorder.path (
          site.axum.of_reply (
            redirect (
              codes "/keys/"
              ++ (site.app.crates.urlencode (codes "bot") ++ codes "?notice=recorded")))))
    × ((serve (in_memory site) before recorder (pos 0) (pos 7)).1 ≡ recorder.jar)
    × ((serve (in_memory site) before recorder (pos 0) (pos 7)).0.store ≡ before.store)
    × ((serve (in_memory site) before recorder (pos 0) (pos 7)).0.metrics
        ≡ Metrics.rotation before.metrics (codes "recorded"))
    × ((other : Bytes)
        → Memory.get (serve (in_memory site) before recorder (pos 0) (pos 7)).0.repo other ≡ (
            if bytes_eq (codes "bot") other
            then some (with_status key (recording (pos 7) (actor session) none))
            else Memory.get before.repo other))
serve-records_example =
    let (routed, rights, fresh, dates) = record_request in
    let (_, _, _, there, _, _, _) = good_request in
    serve-records site before recorder (pos 0) (pos 7) (codes "bot") (codes "bot") session
      record_form (pos 7) none key refl refl routed refl rights refl refl fresh dates (omega arith)
      there
