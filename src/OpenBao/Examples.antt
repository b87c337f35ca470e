-- ===== src/OpenBao/Examples.antt =====
-- A write for which the cached token has been revoked and the secret does not exist yet.
use you_spin_me.Prelude.{
  ℕ, ◌+◌, ◌≡◌, refl, true, none, List, [], ◌∷◌, ◌++◌, if◌then◌else◌, ok, Bytes, codes, ◌==◌, length,
  split, trim,
}
use you_spin_me.Crd.{OpenBaoTarget}
use you_spin_me.OpenBao.{seconds}
use you_spin_me.Prelude.{◌⊎◌, some}
use you_spin_me.OpenBao.{
  Outside, OpenBao, Client, kubernetes, token_of, login, send, write_key, invalidate, url_of, parts,
  all_parts,
}
use you_spin_me.OpenBao.Requests.{Exchange, logged}
use you_spin_me.OpenBao.Outcome.{Outcome}
use you_spin_me.OpenBao.Acknowledged.{write_key-Outcome}
use you_spin_me.OpenBao.Tokens.{IsReused, IsFresh, token_of-IsReused}
use you_spin_me.OpenBao.Paths.{is_dots}

-- The answers by their number: a login, a refusal, a login, no such secret, and a creation.
abbrev status_of : ℕ → ℕ
status_of n = if n == 1 then 403 else if n == 3 then 404 else 200

abbrev outside : Outside Bytes ℕ
outside = record {
  http = λ n req. (n + 1, ok (record { status = status_of n; body = [] }));
  read_to_string = λ n path. ok (codes "jwt\n");
  now = λ n. n;
  has_segments = λ u. true;
  pop_if_empty = λ u. u;
  push = λ u s. u ++ b'/' ∷ s;
  write_body = λ key value. ok (key ++ b'=' ∷ value);
  login_body = λ role jwt. jwt;
  login_response = λ body. ok (codes "t", 60);
  error_response = λ body. none;
  canonical_reason = λ n. none;
  to_lowercase = λ s. s;
}

abbrev self : OpenBao Bytes
self = record {
  addr = codes "http://bao";
  auth = kubernetes (codes "kubernetes") (codes "you-spin-me") (codes "/token");
}

abbrev target : OpenBaoTarget
target = record { mount = codes "secret"; path = codes "/ci/renovate"; key = codes "token" }

abbrev client : Client (ℕ × List (Exchange Bytes))
client = record { token = none; env = (0, []) }

written :
    ((write_key (logged outside) self client target (codes "v")).1 ≡ ok tt)
    × (length (write_key (logged outside) self client target (codes "v")).0.env.1 ≡ 5)
unfolding write_key url_of all_parts parts split send token_of login invalidate trim
written = (refl, refl)

url_test :
    url_of outside self (target.mount ∷ codes "data" ∷ target.path ∷ [])
    ≡ ok (codes "http://bao/v1/secret/data/ci/renovate")
unfolding url_of all_parts parts split
url_test = refl

write_key-Outcome_example :
    Outcome 5
      (codes "http://bao/v1/secret/data/ci/renovate")
      (codes "token=v")
      client.env.1
      (write_key (logged outside) self client target (codes "v"))
write_key-Outcome_example =
    write_key-Outcome outside self client target (codes "v")
      (codes "http://bao/v1/secret/data/ci/renovate") (codes "token=v") url_test refl

-- A URL as the segments of its path.
abbrev by_segments : Outside (List Bytes) ℕ
by_segments = record {
  http = λ n req. (n + 1, ok (record { status = status_of n; body = [] }));
  read_to_string = λ n path. ok (codes "jwt\n");
  now = λ n. n;
  has_segments = λ u. true;
  pop_if_empty = λ u. u;
  push = λ u p. if is_dots p then u else u ++ p ∷ [];
  write_body = λ key value. ok (key ++ b'=' ∷ value);
  login_body = λ role jwt. jwt;
  login_response = λ body. ok (codes "t", 60);
  error_response = λ body. none;
  canonical_reason = λ n. none;
  to_lowercase = λ s. s;
}

abbrev dotted : OpenBaoTarget
dotted = record target { path = codes "ci/./renovate" }

abbrev at_root : OpenBao (List Bytes)
at_root = record { addr = []; auth = kubernetes (codes "kubernetes") (codes "r") (codes "/token") }

abbrev dotted_url : List Bytes
dotted_url = codes "v1" ∷ codes "secret" ∷ codes "data" ∷ codes "ci" ∷ codes "renovate" ∷ []

-- A token with a minute left is used again, one with thirty seconds is not.
abbrev with_cached : ℕ → Client ℕ
with_cached secs = record {
  token = some (record { token = codes "old"; expires = some (seconds secs) });
  env = 0;
}

reused : token_of outside self (with_cached 60) ≡ (with_cached 60, ok (codes "old"))
unfolding token_of
reused = refl

renewed : (token_of outside self (with_cached 30)).1 ≡ ok (codes "t")
unfolding token_of login url_of all_parts parts split trim
renewed = refl

token_of-IsReused_example :
    IsReused outside self (with_cached 60) (with_cached 60) (codes "old")
    ⊎ IsFresh outside self (with_cached 60) (with_cached 60) (codes "old")
token_of-IsReused_example =
    token_of-IsReused outside self (with_cached 60) (with_cached 60) (codes "old") reused
