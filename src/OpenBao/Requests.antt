-- ===== src/OpenBao/Requests.antt =====
-- Which requests a write makes, and what its result says of them.
use you_spin_me.Prelude.{
  ◌≡◌, ◌⊎◌, inl, inr, refl, arith, Option, none, some, Bool-cases, Result-cases, List, [], ◌∷◌,
  ◌++◌, Result, ok, err, Bytes, codes, trim,
}
use you_spin_me.Targets.{TargetError, store}
use you_spin_me.OpenBao.{
  Outside, OpenBao, Client, Request, Response, HttpError, Method, post, CachedToken, Auth,
  kubernetes, token_file, login, login_with, login_at, login_and_cache, token_of, send, url_of,
  is_usable,
}

-- A request and what was answered.
abbrev pub Exchange : Type 0 → Type 0
Exchange U = Request U × Result HttpError Response

-- The same outside, which keeps the exchanges, newest first.
abbrev pub logged : {U E : Type 0} → Outside U E → Outside U (E × List (Exchange U))
logged o = record {
  http = λ s req. let (env, answer) = o.http s.0 req in ((env, (req, answer) ∷ s.1), answer);
  read_to_string = λ s path. o.read_to_string s.0 path;
  now = λ s. o.now s.0;
  has_segments = o.has_segments;
  pop_if_empty = o.pop_if_empty;
  push = o.push;
  write_body = o.write_body;
  login_body = o.login_body;
  login_response = o.login_response;
  error_response = o.error_response;
  canonical_reason = o.canonical_reason;
  to_lowercase = o.to_lowercase;
}

module _ {U E : Type 0} (outside : Outside U E) (self : OpenBao U) where
  -- A login or nothing.
  abbrev pub IsLogin : E → E → Type 0
  IsLogin env env' =
      (env' ≡ env) ⊎ ((req : Request U) × (req.token ≡ none) × (env' ≡ (outside.http env req).0))

  abbrev login_request : Bytes → Bytes → U → Request U
  login_request role jwt url = record {
    method = post;
    url = url;
    token = none;
    content_type = codes "application/json";
    body = outside.login_body role (trim jwt);
  }

  login_at-IsLogin :
      (env : E) (role jwt : Bytes) (url : U)
      → (req : Request U) × (req.token ≡ none)
        × ((login_at outside self env role jwt url).0 ≡ (outside.http env req).0)
  unfolding login_at
  login_at-IsLogin env role jwt url = (login_request role jwt url, refl, ground arith)

  login_with-IsLogin : (auth : Auth) (env : E) → IsLogin env (login_with outside self auth env).0
  unfolding login_with
  login_with-IsLogin (token_file path) env = inl (ground arith)
  login_with-IsLogin (kubernetes mount role jwt_file) env =
      elim (Result-cases (outside.read_to_string env jwt_file)) [
        | inr (e, q) ↦ inl (rw (q, login_with) refl)
        | inl (jwt, q) ↦
            elim (Result-cases (url_of outside self (codes "auth" ∷ mount ∷ codes "login" ∷ []))) [
              | inr (e, q') ↦ inl (rw (q, login_with) (rw q' refl))
              | inl (url, q') ↦ rw (q, login_with) (rw q' (inr (login_at-IsLogin env role jwt url)))
            ]
      ]

  login_and_cache-env :
      (c : Client E) → (login_and_cache outside self c).0.env ≡ (login outside self c.env).0
  unfolding login_and_cache
  login_and_cache-env c = ground arith

  login_and_cache-IsLogin : (c : Client E) → IsLogin c.env (login_and_cache outside self c).0.env
  login_and_cache-IsLogin c =
      rw (login_and_cache-env c) (unfold login in login_with-IsLogin self.auth c.env)

  cached-IsLogin :
      (o : Option CachedToken) (env : E)
      → IsLogin env (token_of outside self (record { token = o; env = env })).0.env
  unfolding token_of
  cached-IsLogin none env = login_and_cache-IsLogin (record { token = none; env = env })
  cached-IsLogin (some t) env = elim (Bool-cases (is_usable (outside.now env) t)) [
    | inl b ↦ inl (rw b refl)
    | inr b ↦ rw b (login_and_cache-IsLogin (record { token = some t; env = env }))
  ]

  pub token_of-IsLogin : (c : Client E) → IsLogin c.env (token_of outside self c).0.env
  token_of-IsLogin c = cached-IsLogin c.token c.env

  -- The request that `send` makes with a token.
  abbrev pub with_token : Method → U → Bytes → Bytes → Bytes → Request U
  with_token method url content_type body t = record {
    method = method;
    url = url;
    token = some t;
    content_type = content_type;
    body = body;
  }

  pub send-cases :
      (c : Client E) (method : Method) (url : U) (content_type body : Bytes)
      → ((e : TargetError) × ((send outside self c method url content_type body).1 ≡ err e)
          × ((send outside self c method url content_type body).0.env
              ≡ (token_of outside self c).0.env))
        ⊎ ((t : Bytes) × ((send outside self c method url content_type body).0.env
              ≡ (outside.http
                  (token_of outside self c).0.env
                  (with_token method url content_type body t)).0)
            × (((e : HttpError) × (f : TargetError) × ((outside.http
                      (token_of outside self c).0.env
                      (with_token method url content_type body t)).1
                    ≡ err e)
                  × ((send outside self c method url content_type body).1 ≡ err f))
                ⊎ ((res : Response) × ((outside.http
                        (token_of outside self c).0.env
                        (with_token method url content_type body t)).1
                      ≡ ok res)
                    × ((send outside self c method url content_type body).1 ≡ ok res))))
  unfolding send
  send-cases c method url content_type body = elim (Result-cases (token_of outside self c).1) [
    | inr (e, q) ↦ inl (e, rw (q, send) refl, rw (q, send) refl)
    | inl (t, q) ↦
        let env = (token_of outside self c).0.env in
        elim (Result-cases (outside.http env (with_token method url content_type body t)).1) [
          | inr (e, q') ↦ inr (
            t,
            rw (q, send) (rw q' refl),
            inl (
              e,
              store (codes "OpenBao request failed: " ++ e.without_url),
              q',
              rw (q, send) (rw q' refl),
            ),
          )
          | inl (res, q') ↦
              inr (t, rw (q, send) (rw q' refl), inr (res, q', rw (q, send) (rw q' refl)))
        ]
  ]
