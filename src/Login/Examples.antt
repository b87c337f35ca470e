-- ===== src/Login/Examples.antt =====
-- A forced login of an admin, from its start to the session.
use you_spin_me.Prelude.{
  ◌≡◌, refl, true, none, some, ok, ◌∷◌, Bytes, codes, split, bytes_eq, starts_with, contains, pos,
  ◌+ℤ◌, ◌-ℤ◌, ◌*◌,
}
use you_spin_me.Time.{second}
use you_spin_me.Time.Examples.{plain}
use you_spin_me.Session.{Session, oidc, constant_time_eq, differences}
use you_spin_me.Login.{
  LoginState, Json, text, array, object, item, no_items, field, no_fields, claim_contains,
  safe_next, login_auth_time, Claims, Oidc, Jar, CallbackQuery, Random, login, identify, returned,
  callback,
}
use you_spin_me.Login.Target.{IsLocal, safe_next-IsLocal}
use you_spin_me.Login.Admits.{IsAdmitted, callback-IsAdmitted}

abbrev claims : Claims
claims = record {
  subject = codes "u1";
  preferred_username = none;
  email = some (codes "ada@example.com");
  name = none;
  auth_time = some (pos 1010);
}

abbrev payload : Json
payload = object (
    field (codes "realm")
      (object (field (codes "roles") (array (item (text (codes "admins")) no_items)) no_fields))
      no_fields)

abbrev pub self : Oidc Bytes
self = record {
  client = record {
    discover = ok tt;
    authorize_url = λ state nonce challenge reauth. codes "https://id";
    challenge_of = λ v. v;
    exchange_code = λ code verifier. ok (codes "h.p.s");
    id_token = λ t. some t;
    verified_claims = λ jwt nonce. ok claims;
    decode_payload = λ p. some payload;
  };
  admin_claim = codes "realm.roles";
  admin_value = codes "admins";
}

abbrev pub random : Random
random = record { state = codes "st"; nonce = codes "no"; pkce_verifier = codes "ve" }

abbrev started : LoginState
started = record {
  state = codes "st";
  nonce = codes "no";
  pkce_verifier = codes "ve";
  next = codes "/keys/a";
  started = pos 1000;
  exp = pos 1600;
  reauth = true;
}

abbrev jar : Jar
jar = record { login = some started; session = none }

abbrev pub query : CallbackQuery
query = record {
  code = some (codes "c");
  state = some (codes "st");
  error = none;
  error_description = none;
}

abbrev pub session : Session
session = record {
  sub = codes "u1";
  name = codes "ada@example.com";
  admin = true;
  csrf = codes "tok";
  auth_time = some (pos 1010);
  exp = pos 29_800;
}

abbrev after : Jar
after = record { login = none; session = some session }

login_test :
    login self plain oidc
      (some (codes "/keys/a"))
      true
      random
      (record { login = none; session = none })
      (pos (1000 * second))
    ≡ ok (jar, codes "https://id")
unfolding login safe_next starts_with contains ◌+ℤ◌
login_test = refl

-- Targets elsewhere are replaced by the root.
safe_next_tests :
    (safe_next (some (codes "//evil.example")) ≡ codes "/")
    × (safe_next (some (codes "https://evil.example")) ≡ codes "/")
    × (safe_next (some (codes "/\\evil.example")) ≡ codes "/")
    × (safe_next (some (b'/' ∷ 9 ∷ codes "/evil.example")) ≡ b'/' ∷ 9 ∷ codes "/evil.example")
unfolding safe_next starts_with contains
safe_next_tests = (refl, refl, refl, refl)

opened :
    callback self plain oidc (pos 28_800) (codes "tok") query jar (pos (1000 * second))
    ≡ ok (after, codes "/keys/a")
unfolding callback returned identify login_auth_time claim_contains split bytes_eq ◌+ℤ◌ ◌-ℤ◌
    constant_time_eq differences
opened = refl

safe_next-IsLocal_example :
    IsLocal (safe_next (some (codes "//evil.example")))
    × ((n : Bytes)
        → some (codes "//evil.example") ≡ some n
        → IsLocal n
        → safe_next (some (codes "//evil.example")) ≡ n)
safe_next-IsLocal_example = safe_next-IsLocal (some (codes "//evil.example"))

callback-IsAdmitted_example :
    (l : LoginState) × (s : Session) × (jar.login ≡ some l)
    × IsAdmitted self plain (pos 28_800) (codes "tok") query l (pos (1000 * second)) s
    × (codes "/keys/a" ≡ l.next)
    × (after ≡ record { login = none; session = some s })
callback-IsAdmitted_example =
    callback-IsAdmitted self plain (pos 28_800) (codes "tok") query jar after (pos (1000 * second))
      (codes "/keys/a") opened
