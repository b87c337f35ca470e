-- ===== src/UnitTests/OpenBao.antt =====
-- The tests of src/targets/openbao.rs, over a mock server that gives its answers in turn and keeps
-- the requests, the newest first.
use you_spin_me.Prelude.{
  ℕ, ◌≡◌, refl, true, false, none, some, List, [], ◌∷◌, ◌++◌, map, Result, ok, err, Bytes, codes,
  starts_with, if◌then◌else◌, ◌==◌, is_nil, split, trim, decimal, join, drop_char,
}
use you_spin_me.Crd.{OpenBaoTarget}
use you_spin_me.Targets.{TargetError, show}
use you_spin_me.Config.{trim_end_slashes}
use you_spin_me.Views.{contains_text}
use you_spin_me.OpenBao.{
  Outside, OpenBao, Client, Auth, kubernetes, token_file, patch, post, Request, Response, HttpError,
  token_of, login, send, write_key, invalidate, url_of, parts, all_parts,
}

pub record Server : Type 0 where
  pub answers : List Response
  pub requests : List (Request Bytes)

abbrev respond : Server → Request Bytes → Server × Result HttpError Response
respond s req = elim s.answers [
  | [] ↦ (
    record s { requests = req ∷ s.requests },
    err (record { shown = codes "no answer"; without_url = codes "no answer" }),
  )
  | a ∷ more ↦ (record { answers = more; requests = req ∷ s.requests }, ok a)
]

-- A segment of a URL, with its spaces encoded.
encoded : Bytes → Bytes
encoded [] = []
encoded (c ∷ s) = if c == b' ' then codes "%20" ++ encoded s else c ∷ encoded s

-- Every file holds this text; a login returns the token "t1" for an hour, and the body of an error is
-- its message.
abbrev outside : Bytes → Outside Bytes Server
outside file = record {
  http = respond;
  read_to_string = λ s path. ok file;
  now = λ s. 0;
  has_segments = λ u. true;
  pop_if_empty = trim_end_slashes;
  push = λ u s. u ++ b'/' ∷ encoded s;
  write_body = λ key value.
      ok (codes "{\"data\":{\"" ++ (key ++ (codes "\":\"" ++ (value ++ codes "\"}}"))));
  login_body =
      λ role jwt. codes "{\"role\":\"" ++ (role ++ (codes "\",\"jwt\":\"" ++ (jwt ++ codes "\"}")));
  login_response = λ body. ok (codes "t1", 3600);
  error_response = λ body. if is_nil body then none else some (body ∷ []);
  canonical_reason = λ n. none;
  to_lowercase = λ s. s;
}

abbrev bao : Auth → OpenBao Bytes
bao auth = record { addr = codes "http://bao/"; auth = auth }

abbrev with_file : OpenBao Bytes
with_file = bao (token_file (codes "/tmp/token"))

abbrev target : OpenBaoTarget
target = record { mount = codes "secret"; path = codes "ci/renovate"; key = codes "token" }

abbrev answering : List Response → Client Server
answering answers = record { token = none; env = record { answers = answers; requests = [] } }

abbrev status : ℕ → Response
status n = record { status = n; body = [] }

abbrev secret_url : Bytes
secret_url = codes "http://bao/v1/secret/data/ci/renovate"

abbrev login_endpoint : Bytes
login_endpoint = codes "http://bao/v1/auth/kubernetes/login"

abbrev Written : Type 0
Written = Client Server × Result TargetError (Unit {0})

abbrev patching : Written
patching =
    write_key (outside (codes "root\n")) with_file (answering (status 200 ∷ [])) target
      (codes "s3cr3t")

abbrev PatchesExistingSecret : Type 0
PatchesExistingSecret =
    (patching.1 ≡ ok tt)
    × (patching.0.env.requests
        ≡ record {
          method = patch;
          url = secret_url;
          token = some (codes "root");
          content_type = codes "application/merge-patch+json";
          body = codes "{\"data\":{\"token\":\"s3cr3t\"}}";
        }
          ∷ [])

patches_existing_secret : PatchesExistingSecret
unfolding write_key url_of all_parts parts split send token_of login trim trim_end_slashes drop_char
    encoded
patches_existing_secret = (refl, refl)

abbrev created : Written
created =
    write_key (outside (codes "root")) with_file (answering (status 404 ∷ status 200 ∷ [])) target
      (codes "s3cr3t")

abbrev CreatesMissingSecretWithPost : Type 0
CreatesMissingSecretWithPost =
    (created.1 ≡ ok tt)
    × (map (λ r. r.method) created.0.env.requests ≡ post ∷ patch ∷ [])
    × (map (λ r. r.url) created.0.env.requests ≡ secret_url ∷ secret_url ∷ [])
    × (map (λ r. r.body) created.0.env.requests
        ≡ codes "{\"data\":{\"token\":\"s3cr3t\"}}"
          ∷ codes "{\"data\":{\"token\":\"s3cr3t\"}}"
          ∷ [])

creates_missing_secret_with_post : CreatesMissingSecretWithPost
unfolding write_key url_of all_parts parts split send token_of login trim trim_end_slashes drop_char
    encoded
creates_missing_secret_with_post = (refl, refl, refl, refl)

abbrev with_login : OpenBao Bytes
with_login = bao (kubernetes (codes "kubernetes") (codes "you-spin-me") (codes "/tmp/token"))

-- A login, a write that is rejected, a login and its retry; then a write with the cached token.
abbrev retried : Written
retried =
    write_key (outside (codes "sa-jwt\n")) with_login
      (answering (
        status 200
        ∷ record { status = 403; body = codes "permission denied" }
        ∷ status 200
        ∷ status 200
        ∷ status 200
        ∷ []))
      target (codes "a")

abbrev again : Written
again = write_key (outside (codes "sa-jwt\n")) with_login retried.0 target (codes "b")

abbrev KubernetesLoginIsCachedAndRetriedOnceOn403 : Type 0
KubernetesLoginIsCachedAndRetriedOnceOn403 =
    (retried.1 ≡ ok tt)
    × (again.1 ≡ ok tt)
    × (map (λ r. r.method) again.0.env.requests ≡ patch ∷ patch ∷ post ∷ patch ∷ post ∷ [])
    × (map (λ r. r.url) again.0.env.requests
        ≡ secret_url ∷ secret_url ∷ login_endpoint ∷ secret_url ∷ login_endpoint ∷ [])
    × (map (λ r. r.body) again.0.env.requests
        ≡ codes "{\"data\":{\"token\":\"b\"}}"
          ∷ codes "{\"data\":{\"token\":\"a\"}}"
          ∷ codes "{\"role\":\"you-spin-me\",\"jwt\":\"sa-jwt\"}"
          ∷ codes "{\"data\":{\"token\":\"a\"}}"
          ∷ codes "{\"role\":\"you-spin-me\",\"jwt\":\"sa-jwt\"}"
          ∷ [])

kubernetes_login_is_cached_and_retried_once_on_403 : KubernetesLoginIsCachedAndRetriedOnceOn403
unfolding write_key url_of all_parts parts split send token_of login invalidate trim
    trim_end_slashes drop_char encoded
kubernetes_login_is_cached_and_retried_once_on_403 = (refl, refl, refl, refl, refl)

abbrev denied : Written
denied =
    write_key (outside (codes "root")) with_file
      (answering
        (record { status = 403; body = codes "1 error occurred:\n\t* permission denied\n\n" } ∷ []))
      target (codes "super-secret-value")

abbrev ErrorsCarryOpenbaoMessageButNeverTheValue : Type 0
ErrorsCarryOpenbaoMessageButNeverTheValue =
    (e : TargetError) × (denied.1 ≡ err e)
    × (contains_text (show e) (codes "403") ≡ true)
    × (contains_text (show e) (codes "permission denied") ≡ true)
    × (contains_text (show e) (codes "super-secret-value") ≡ false)

errors_carry_openbao_message_but_never_the_value : ErrorsCarryOpenbaoMessageButNeverTheValue
unfolding write_key url_of all_parts parts split send token_of login trim trim_end_slashes drop_char
    encoded show join decimal contains_text starts_with
errors_carry_openbao_message_but_never_the_value = (_, refl, refl, refl, refl)

abbrev UrlsAreBuiltFromSegments : Type 0
UrlsAreBuiltFromSegments =
    url_of (outside []) (record with_file { addr = codes "https://bao.example:8200/" })
      (codes "secret" ∷ codes "data" ∷ codes "/a/b c/" ∷ [])
    ≡ ok (codes "https://bao.example:8200/v1/secret/data/a/b%20c")

urls_are_built_from_segments : UrlsAreBuiltFromSegments
unfolding url_of all_parts parts split trim_end_slashes drop_char encoded
urls_are_built_from_segments = refl
