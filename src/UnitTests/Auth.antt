-- ===== src/UnitTests/Auth.antt =====
-- The tests of src/web/auth.rs.
use you_spin_me.Prelude.{
  ◌≡◌, refl, true, false, Bool, none, some, [], ok, codes, split, bytes_eq, starts_with, contains,
  pos, ◌+ℤ◌, ◌-ℤ◌,
}
use you_spin_me.Time.{Timestamp}
use you_spin_me.Time.Examples.{plain}
use you_spin_me.Session.{
  Session, is_expired, fresh_enough, check_csrf, constant_time_eq, differences,
}
use you_spin_me.Login.{
  Json, text, array, object, item, no_items, field, no_fields, claim_contains, safe_next,
  LoginState, login_auth_time,
}
use you_spin_me.UnitTests.Fixtures.{IsErr, from_secs}

abbrev claims : Json
claims = object (
    field (codes "groups")
      (array (item (text (codes "users")) (item (text (codes "you-spin-me-admins")) no_items)))
      (field (codes "role") (text (codes "admin")) (
        field (codes "realm_access")
          (object (
            field (codes "roles")
              (array (item (text (codes "x")) (item (text (codes "keys-admin")) no_items)))
              no_fields))
          no_fields)))

abbrev ClaimsAreMatchedByPath : Type 0
ClaimsAreMatchedByPath =
    (claim_contains claims (codes "groups") (codes "you-spin-me-admins") ≡ true)
    × (claim_contains claims (codes "groups") (codes "admins") ≡ false)
    × (claim_contains claims (codes "role") (codes "admin") ≡ true)
    × (claim_contains claims (codes "realm_access.roles") (codes "keys-admin") ≡ true)
    × (claim_contains claims (codes "missing.path") (codes "x") ≡ false)

claims_are_matched_by_path : ClaimsAreMatchedByPath
unfolding claim_contains split bytes_eq
claims_are_matched_by_path = (refl, refl, refl, refl, refl)

abbrev NextMustBeRelative : Type 0
NextMustBeRelative =
    (safe_next (some (codes "/keys/a?x=1")) ≡ codes "/keys/a?x=1")
    × (safe_next (some (codes "//evil.example")) ≡ codes "/")
    × (safe_next (some (codes "https://evil.example")) ≡ codes "/")
    × (safe_next (some (codes "/\\evil.example")) ≡ codes "/")
    × (safe_next none ≡ codes "/")

next_must_be_relative : NextMustBeRelative
unfolding safe_next starts_with contains
next_must_be_relative = (refl, refl, refl, refl, refl)

-- The instant of both tests, 10,000 seconds after the epoch.
abbrev now : Timestamp
now = from_secs 10_000

abbrev session : Session
session = record {
  sub = codes "a";
  name = codes "a";
  admin = true;
  csrf = codes "t";
  auth_time = some (pos 9_000);
  exp = pos 20_000;
}

abbrev unknown : Session
unknown = record session { auth_time = none }

abbrev future : Session
future = record session { auth_time = some (pos 10_061) }

abbrev StepUpFreshness : Type 0
StepUpFreshness =
    (fresh_enough plain session none now ≡ true)
    × (fresh_enough plain session (some (from_secs 1_000)) now ≡ true)
    × (fresh_enough plain session (some (from_secs 940)) now ≡ true)
    × (fresh_enough plain session (some (from_secs 939)) now ≡ false)
    × (is_expired plain session now ≡ false)
    × (fresh_enough plain unknown none now ≡ true)
    × (fresh_enough plain unknown (some (from_secs 1_000_000)) now ≡ false)
    × (fresh_enough plain future (some (from_secs 1_000_000)) now ≡ false)

step_up_freshness : StepUpFreshness
unfolding fresh_enough is_expired ◌+ℤ◌ ◌-ℤ◌
step_up_freshness = (refl, refl, refl, refl, refl, refl, refl, refl)

abbrev login_of : (reauth : Bool) → LoginState
login_of reauth = record {
  state = [];
  nonce = [];
  pkce_verifier = [];
  next = codes "/";
  started = pos 9_900;
  exp = pos 10_500;
  reauth = reauth;
}

abbrev ReauthMustProveAFreshLogin : Type 0
ReauthMustProveAFreshLogin =
    (login_auth_time plain none (login_of false) now ≡ ok none)
    × (login_auth_time plain (some (pos 1_000)) (login_of false) now ≡ ok (some (pos 1_000)))
    × IsErr (login_auth_time plain none (login_of true) now)
    × IsErr (login_auth_time plain (some (pos 1_000)) (login_of true) now)
    × IsErr (login_auth_time plain (some (pos 20_000)) (login_of true) now)
    × (login_auth_time plain (some (pos 9_950)) (login_of true) now ≡ ok (some (pos 9_950)))

reauth_must_prove_a_fresh_login : ReauthMustProveAFreshLogin
unfolding login_auth_time ◌+ℤ◌ ◌-ℤ◌
reauth_must_prove_a_fresh_login = (refl, refl, (_, refl), (_, refl), (_, refl), refl)

abbrev checked : Session
checked = record {
  sub = codes "a";
  name = codes "a";
  admin = true;
  csrf = codes "token";
  auth_time = none;
  exp = pos 1;
}

abbrev CsrfCheck : Type 0
CsrfCheck =
    (check_csrf checked none (some (codes "token")) ≡ ok tt)
    × IsErr (check_csrf checked none (some (codes "nope")))
    × IsErr (check_csrf checked none none)
    × (check_csrf checked (some (codes "token")) none ≡ ok tt)

csrf_check : CsrfCheck
unfolding check_csrf constant_time_eq differences
csrf_check = (refl, (_, refl), (_, refl), refl)
