-- ===== src/OpenBao.antt =====
-- The OpenBao KV v2 writer (src/targets/openbao.rs). The HTTP client, the files, the clock and the
-- crates for URLs and JSON are the parameter `Outside`; what they change is a state `E`.
mod Api
pub mod Paths
pub mod Tokens
pub mod Requests
pub mod Outcome
pub mod Acknowledged
mod Examples
unfoldable pub use Api.*
use you_spin_me.Prelude.{
  ℕ, ◌+◌, ◌*◌, Bool, true, false, not, ◌&&◌, Option, none, some, List, [], ◌∷◌, ◌++◌, keep,
  if◌then◌else◌, Result, ok, err, map_option, is_nil, unwrap_or, ltb, leb, ◌==◌, Bytes, codes,
  split, trim, join, decimal,
}
use you_spin_me.Crd.{OpenBaoTarget, TargetSpec}
use you_spin_me.Targets.{TargetError, store, unconfigured, TargetWriter}

-- Instants in nanoseconds; a lease is given in seconds.
abbrev pub seconds : ℕ → ℕ
seconds n = n * 1_000_000_000

abbrev pub token_margin : ℕ
token_margin = seconds 30

pub data Auth : Type 0 where
  kubernetes : (mount role jwt_file : Bytes) → Auth
  token_file : Bytes → Auth

abbrev pub is_kubernetes : Auth → Bool
is_kubernetes (kubernetes mount role jwt_file) = true
is_kubernetes (token_file path) = false

pub record CachedToken : Type 0 where
  pub token : Bytes
  pub expires : Option ℕ

pub record OpenBao (U : Type 0) : Type 0 where
  pub addr : U
  pub auth : Auth

-- What a write changes: the cached token, and what is outside.
pub record Client (E : Type 0) : Type 0 where
  pub token : Option CachedToken
  pub env : E

abbrev is_success : ℕ → Bool
is_success status = leb 200 status && ltb status 300

-- Is the cached token good for the margin?
abbrev pub is_usable : ℕ → CachedToken → Bool
is_usable now t = elim t.expires [ none ↦ true | some e ↦ ltb (now + token_margin) e ]

-- The parts of a path between slashes that are not empty.
unfoldable pub parts : Bytes → List Bytes
parts segment = keep (λ p. not (is_nil p)) (split b'/' segment)

unfoldable pub all_parts : List Bytes → List Bytes
all_parts [] = []
all_parts (s ∷ ss) = parts s ++ all_parts ss

module _ {U E : Type 0} (outside : Outside U E) where
  pub push_all : List Bytes → U → U
  push_all [] u = u
  push_all (p ∷ ps) u = push_all ps (outside.push u p)

  error_from : Response → Bytes → TargetError
  error_from res action =
      let reason =
        outside.to_lowercase (unwrap_or (outside.canonical_reason res.status) (codes "error")) in
      let detail =
        unwrap_or (map_option (λ es. join (codes "; ") es) (outside.error_response res.body)) [] in
      store (
        action
        ++ (codes " returned "
            ++ (decimal res.status ++ (codes ": " ++ (if is_nil detail then reason else detail)))))

  module _ (self : OpenBao U) where
    -- `url`
    unfoldable pub url_of : List Bytes → Result TargetError U
    unfolding push_all
    url_of segments =
        if outside.has_segments self.addr
        then ok (
            push_all (all_parts segments)
              (outside.push (outside.pop_if_empty self.addr) (codes "v1")))
        else err (store (codes "invalid OpenBao address"))

    -- The lease is counted from when the response is there.
    cached_from : E → Response → Result TargetError CachedToken
    cached_from env res = elim (outside.login_response res.body) [
      | err e ↦ err (store (codes "OpenBao login response: " ++ e))
      | ok (token, lease) ↦ ok (record {
        token = token;
        expires = if ltb 0 lease then some (outside.now env + seconds lease) else none;
      })
    ]

    login_at : E → Bytes → Bytes → U → E × Result TargetError CachedToken
    unfolding error_from cached_from
    login_at env role jwt url =
        let (env', answer) = outside.http env (record {
          method = post;
          url = url;
          token = none;
          content_type = codes "application/json";
          body = outside.login_body role (trim jwt);
        }) in
        elim answer [
          | err e ↦ (env', err (store (codes "OpenBao login failed: " ++ e.shown)))
          | ok res ↦
              if not (is_success res.status)
              then (env', err (error_from res (codes "OpenBao login")))
              else (env', cached_from env' res)
        ]

    login_with : Auth → E → E × Result TargetError CachedToken
    unfolding login_at
    login_with (token_file path) env = elim (outside.read_to_string env path) [
      | err e ↦ (env, err (store (codes "reading OpenBao token " ++ (path ++ (codes ": " ++ e)))))
      | ok text ↦ (env, ok (record { token = trim text; expires = none }))
    ]
    login_with (kubernetes mount role jwt_file) env = elim (outside.read_to_string env jwt_file) [
      | err e ↦ (
        env,
        err (store (codes "reading ServiceAccount token " ++ (jwt_file ++ (codes ": " ++ e)))),
      )
      | ok jwt ↦ elim (url_of (codes "auth" ∷ mount ∷ codes "login" ∷ [])) [
        | err e ↦ (env, err e)
        | ok url ↦ login_at env role jwt url
      ]
    ]

    unfoldable pub login : E → E × Result TargetError CachedToken
    unfolding login_with
    login env = login_with self.auth env

    login_and_cache : Client E → Client E × Result TargetError Bytes
    login_and_cache c =
        let (env, result) = login c.env in
        elim result [
          | err e ↦ (record c { env = env }, err e)
          | ok fresh ↦ (record { token = some fresh; env = env }, ok fresh.token)
        ]

    -- `token`
    unfoldable pub token_of : Client E → Client E × Result TargetError Bytes
    unfolding login_and_cache
    token_of c = elim c.token [
      | none ↦ login_and_cache c
      | some t ↦ if is_usable (outside.now c.env) t then (c, ok t.token) else login_and_cache c
    ]

    unfoldable pub invalidate : Client E → Client E
    invalidate c = record c { token = none }

    unfoldable pub send :
        Client E → Method → U → Bytes → Bytes → Client E × Result TargetError Response
    send c method url content_type body =
        let (c', token) = token_of c in
        elim token [
          | err e ↦ (c', err e)
          | ok t ↦
              let (env, answer) = outside.http c'.env (record {
                method = method;
                url = url;
                token = some t;
                content_type = content_type;
                body = body;
              }) in
              let after = record c' { env = env } in
              elim answer [
                | err e ↦ (after, err (store (codes "OpenBao request failed: " ++ e.without_url)))
                | ok res ↦ (after, ok res)
              ]
        ]

    -- The secret is missing: it is created.
    create : Client E → U → Bytes → Client E × Result TargetError (Unit {0})
    unfolding error_from
    create c url body =
        let (c', answer) = send c post url (codes "application/json") body in
        elim answer [
          | err e ↦ (c', err e)
          | ok res ↦
              if is_success res.status
              then (c', ok tt)
              else (c', err (error_from res (codes "OpenBao create")))
        ]

    -- What a response to `PATCH` leads to when it is not a retry.
    settle : Client E → U → Bytes → Response → Client E × Result TargetError (Unit {0})
    unfolding error_from create
    settle c url body res =
        if is_success res.status
        then (c, ok tt)
        else if res.status == 404
        then create c url body
        else (c, err (error_from res (codes "OpenBao write")))

    send_patch : Client E → U → Bytes → Client E × Result TargetError Response
    send_patch c url body = send c patch url (codes "application/merge-patch+json") body

    -- The loop, in its two passes: the second one has `retried_login` set and never continues.
    second_pass : Client E → U → Bytes → Client E × Result TargetError (Unit {0})
    unfolding settle send_patch
    second_pass c url body =
        let (c', answer) = send_patch c url body in
        elim answer [ err e ↦ (c', err e) | ok res ↦ settle c' url body res ]

    first_pass : Client E → U → Bytes → Client E × Result TargetError (Unit {0})
    unfolding settle second_pass send_patch
    first_pass c url body =
        let (c', answer) = send_patch c url body in
        elim answer [
          | err e ↦ (c', err e)
          | ok res ↦
              if res.status == 403 && is_kubernetes self.auth
              then second_pass (invalidate c') url body
              else settle c' url body res
        ]

    unfoldable pub write_key :
        Client E → OpenBaoTarget → Bytes → Client E × Result TargetError (Unit {0})
    unfolding first_pass
    write_key c target value = elim (url_of (target.mount ∷ codes "data" ∷ target.path ∷ [])) [
      | err e ↦ (c, err e)
      | ok url ↦ elim (outside.write_body target.key value) [
        | err e ↦ (c, err (store e))
        | ok body ↦ first_pass c url body
      ]
    ]

    -- `TargetWriter for OpenBao`
    unfoldable pub write : Client E → TargetSpec → Bytes → Client E × Result TargetError (Unit {0})
    write c target value = elim target.openbao [
      | some t ↦ write_key c t value
      | none ↦ (c, err unconfigured)
    ]

    abbrev pub openbao : TargetWriter (Client E)
    openbao = record { write = write }
