-- ===== src/Session/Examples.antt =====
-- A session of an admin, and requests with it.
use you_spin_me.Prelude.{
  ◌≡◌, ◌↔◌, refl, arith, subst, true, false, none, some, ok, err, codes, ℤ, pos, ◌+ℤ◌, ◌-ℤ◌, ◌*◌,
  ◌≤ℤ◌, ◌<ℤ◌,
}
use you_spin_me.Time.{second}
use you_spin_me.Time.Examples.{plain}
use you_spin_me.Session.{
  Session, Asked, oidc, login, clock_skew_secs, provided, check_csrf, fresh_enough, user_of,
  admin_of, is_expired,
}
use you_spin_me.Session.Access.{check_csrf_iff, IsBounded, fresh_enough_iff, admin_of_iff}

abbrev session : Session
session = record {
  sub = codes "u1";
  name = codes "Ada";
  admin = true;
  csrf = codes "tok";
  auth_time = some (pos 1000);
  exp = pos 5000;
}

abbrev asked : Asked
asked = record {
  path_and_query = some (codes "/keys/a");
  hx_request = false;
  hx_current_path = none;
}

access_tests :
    (admin_of plain oidc asked (some session) (pos (4999 * second)) ≡ ok session)
    × (admin_of plain oidc asked (some session) (pos (5000 * second))
        ≡ err (login (codes "/keys/a")))
    × (fresh_enough plain session (some (pos (300 * second))) (pos (1360 * second)) ≡ true)
    × (fresh_enough plain session (some (pos (300 * second))) (pos (1361 * second)) ≡ false)
unfolding admin_of user_of is_expired fresh_enough ◌+ℤ◌ ◌-ℤ◌
access_tests = (refl, refl, refl, refl)

check_csrf_iff_example :
    (check_csrf session none (some (codes "tok")) ≡ ok tt)
    ↔ (provided none (some (codes "tok")) ≡ session.csrf)
check_csrf_iff_example = check_csrf_iff session none (some (codes "tok"))

bounded :
    (t : ℤ)
    → session.auth_time ≡ some t
    → IsBounded t (plain.as_second (pos (1360 * second))) (plain.as_secs (pos (300 * second)))
unfolding ◌+ℤ◌ ◌-ℤ◌
bounded t h =
    let same : pos 1000 ≡ t = ground arith in
    subst
      (λ x.
        IsBounded x (plain.as_second (pos (1360 * second))) (plain.as_secs (pos (300 * second))))
      same
      (record {
        later = (omega arith, omega arith);
        since = (omega arith, omega arith);
        allowed = (omega arith, omega arith);
      })

fresh_enough_iff_example :
    (fresh_enough plain session (some (pos (300 * second))) (pos (1360 * second)) ≡ true) ↔ (
      (t : ℤ) × (session.auth_time ≡ some t)
      × (t ≤ℤ plain.as_second (pos (1360 * second)) +ℤ clock_skew_secs)
      × (plain.as_second (pos (1360 * second))
          ≤ℤ (t +ℤ plain.as_secs (pos (300 * second))) +ℤ clock_skew_secs))
fresh_enough_iff_example =
    fresh_enough_iff plain session (pos (300 * second)) (pos (1360 * second)) bounded

admin_of_iff_example :
    (admin_of plain oidc asked (some session) (pos (4999 * second)) ≡ ok session) ↔ (
      (some session ≡ some session)
      × (plain.as_second (pos (4999 * second)) <ℤ session.exp)
      × (session.admin ≡ true))
admin_of_iff_example = admin_of_iff plain asked (some session) (pos (4999 * second)) session
