-- ===== src/Views/Examples.antt =====
-- Rows and pages of a key.
use you_spin_me.Prelude.{◌≡◌, refl, some, codes, pos, ◌*◌, ◌-ℤ◌}
use you_spin_me.Time.{second}
use you_spin_me.Time.Examples.{plain}
use you_spin_me.Crd.{ApiKey}
use you_spin_me.Targets.{memory_writer}
use you_spin_me.Glob.{allow_all}
use you_spin_me.Repo.Memory.{get}
use you_spin_me.Rotator.{rotate}
use you_spin_me.Rotator.Examples.{request, before, accepts, rotator, outcome, rotated}
use you_spin_me.Validation.Examples.{plain_crates}
use you_spin_me.Views.{Outside, relative}
use you_spin_me.Views.Rows.{ShowsWrites, rotate-IsShown}
use you_spin_me.Views.Detail.{detail_of}
use you_spin_me.Rotator.Writes.{Wrote}
use you_spin_me.Schedule.{default_thresholds}

relative_test : relative plain (pos (5 * second)) (pos (60 * second)) ≡ codes "now"
unfolding relative ◌-ℤ◌
relative_test = refl

abbrev views : Outside
views = record { crates = plain_crates; url_text = λ u. u; to_lowercase = λ s. s }

rotate-IsShown_example :
    (key : ApiKey) × (get
        (rotate (rotator accepts) before (codes "bot") request (pos 7)).0.repo
        (codes "bot")
      ≡ some key)
    × Wrote memory_writer request.value before.store key.spec.targets outcome.targets
        (rotate (rotator accepts) before (codes "bot") request (pos 7)).0.store
    × ShowsWrites key.spec.targets outcome.targets
        (detail_of views key default_thresholds (pos 900)).targets
rotate-IsShown_example =
    rotate-IsShown plain_crates memory_writer accepts allow_all views default_thresholds before
      (codes "bot") request (pos 7) (pos 900) outcome rotated
