-- ===== src/UnitTests/Fixtures.antt =====
-- What the tests share: instants of the year 2026, durations and keys.
use you_spin_me.Prelude.{
  ℕ, zero, suc, ◌+◌, ◌-◌, ◌*◌, none, some, List, [], ◌∷◌, Bytes, pos, ◌≡◌, Result, err,
}
use you_spin_me.Time.{Timestamp, SignedDuration, second}
use you_spin_me.Crd.{ApiKey, ApiKeySpec, generic, TargetSpec}

-- The days of the year before each month.
abbrev days_before : ℕ → List ℕ → ℕ
days_before m [] = 0
days_before zero (d ∷ ds) = 0
days_before (suc m) (d ∷ ds) = d + days_before m ds

abbrev months : List ℕ
months = 31 ∷ 28 ∷ 31 ∷ 30 ∷ 31 ∷ 30 ∷ 31 ∷ 31 ∷ 30 ∷ 31 ∷ 30 ∷ 31 ∷ []

-- "2026-month-dayThour:00:00Z"; the year begins on the day 20454 of the epoch.
abbrev pub ts : (month day hour : ℕ) → Timestamp
ts month day hour =
    pos (((20_454 + days_before (month - 1) months + (day - 1)) * 86_400 + hour * 3600) * second)

abbrev pub from_secs : ℕ → SignedDuration
from_secs n = pos (n * second)

abbrev pub from_hours : ℕ → SignedDuration
from_hours n = pos (n * 3600 * second)

-- `ApiKeySpec::default` and `ApiKey::new`.
abbrev pub default_spec : ApiKeySpec
default_spec = record {
  display_name = none;
  provider = generic;
  owner = none;
  renew_url = none;
  setup = record { permissions = []; notes = none };
  rotation = record { max_age = none; warn_before = none; critical_before = none };
  targets = [];
  consumers = [];
}

abbrev pub new_key : Bytes → ApiKeySpec → ApiKey
new_key name spec = record {
  metadata = record {
    name = some name;
    namespace = none;
    generation = none;
    resource_version = none;
  };
  spec = spec;
  status = none;
}

abbrev pub target_at : (mount path key : Bytes) → TargetSpec
target_at mount path key = record {
  openbao = some (record { mount = mount; path = path; key = key });
}

-- `is_err`
abbrev pub IsErr : {E A : Type 0} → Result E A → Type 0
IsErr {E} r = (e : E) × (r ≡ err e)
