-- ===== src/Login/Admits.antt =====
-- What must have happened for a callback to open a session.
use you_spin_me.Prelude.{
  ◌≡◌, inl, inr, refl, arith, true, Bool-cases, subst, Option, none, some, Option-cases,
  Result-cases, ok, unwrap_or, [], Bytes, ℤ, ◌+ℤ◌, wrap_i64, ◌-ℤ◌, ◌≤ℤ◌, ltb_ℤ-cases,
}
use you_spin_me.Time.{Timestamp, Jiff}
use you_spin_me.Session.{Session, clock_skew_secs, constant_time_eq, oidc}
use you_spin_me.Session.Bits.{constant_time_eq_iff}
use you_spin_me.Login.{
  LoginState, login_auth_time, Claims, no_endpoint, refused, Oidc, Jar, CallbackQuery, is_admin,
  identify, returned, session_for, callback,
}

login_auth_time-ok :
    (jiff : Jiff) (claim kept : Option ℤ) (login : LoginState) (now : Timestamp)
    → login_auth_time jiff claim login now ≡ ok kept
    → (kept ≡ claim)
      × (login.reauth ≡ true
          → (t : ℤ) × (kept ≡ some t)
            × (login.started -ℤ clock_skew_secs ≤ℤ t)
            × (t ≤ℤ jiff.as_second now +ℤ clock_skew_secs))
unfolding login_auth_time
login_auth_time-ok jiff none kept login now h = (ground arith, λ r. absurd (ground arith))
login_auth_time-ok jiff (some t) kept login now h = (
  ground arith,
  λ r. elim (ltb_ℤ-cases t (login.started -ℤ clock_skew_secs)) [
    | inl (b, _) ↦ absurd (ground arith)
    | inr (b, low) ↦ elim (ltb_ℤ-cases (jiff.as_second now +ℤ clock_skew_secs) t) [
      | inl (b', _) ↦ absurd (ground arith)
      | inr (b', high) ↦ (t, ground arith, low, high)
    ]
  ],
)

module _ {T : Type 0} (self : Oidc T) where
  returned-ok :
      (jiff : Jiff) (q : CallbackQuery) (jar : Jar) (now : Timestamp) (code : Bytes)
      (login : LoginState)
      → returned self jiff q jar now ≡ ok (code, login)
      → (jar.login ≡ some login)
        × (q.error ≡ none)
        × (q.code ≡ some code)
        × (unwrap_or q.state [] ≡ login.state)
        × (jiff.as_second now ≤ℤ login.exp)
  unfolding returned
  returned-ok jiff q jar now code login h = elim (Option-cases q.error) [
    | inr (e, p) ↦ absurd (ground arith)
    | inl p ↦ elim (Option-cases jar.login) [
      | inl p2 ↦ absurd (ground arith)
      | inr (l, p2) ↦ elim (ltb_ℤ-cases l.exp (jiff.as_second now)) [
        | inl (b, _) ↦ absurd (ground arith)
        | inr (b, le) ↦ elim (Bool-cases (constant_time_eq (unwrap_or q.state []) l.state)) [
          | inr b2 ↦ absurd (ground arith)
          | inl b2 ↦ elim (Option-cases q.code) [
            | inl p3 ↦ absurd (ground arith)
            | inr (k, p3) ↦
                let same : l ≡ login = ground arith in
                (
                  ground arith,
                  p,
                  ground arith,
                  subst (λ x. unwrap_or q.state [] ≡ x.state) same
                      ((constant_time_eq_iff (unwrap_or q.state []) l.state).0 b2),
                  subst (λ x. jiff.as_second now ≤ℤ x.exp) same le,
                )
          ]
        ]
      ]
    ]
  ]

  identify-ok :
      (code jwt : Bytes) (login : LoginState) (claims : Claims)
      → identify self code login ≡ ok (jwt, claims)
      → (token : T) × (self.client.exchange_code code login.pkce_verifier ≡ ok token)
        × (self.client.id_token token ≡ some jwt)
        × (self.client.verified_claims jwt login.nonce ≡ ok claims)
  unfolding identify
  identify-ok code jwt login claims h = elim (Result-cases self.client.discover) [
    | inr (e, p) ↦ absurd (ground arith)
    | inl (u, p) ↦ elim (Result-cases (self.client.exchange_code code login.pkce_verifier)) [
      | inr (no_endpoint e, p2) ↦ absurd (ground arith)
      | inr (refused e, p2) ↦ absurd (ground arith)
      | inl (token, p2) ↦ elim (Option-cases (self.client.id_token token)) [
        | inl p3 ↦ absurd (ground arith)
        | inr (j, p3) ↦ elim (Result-cases (self.client.verified_claims j login.nonce)) [
          | inr (e, p4) ↦ absurd (ground arith)
          | inl (c, p4) ↦ (token, p2, ground arith, ground arith)
        ]
      ]
    ]
  ]

  -- What must be so for a callback to open the session `s`.
  pub record IsAdmitted (jiff : Jiff) (ttl : ℤ) (csrf : Bytes) (q : CallbackQuery)
      (login : LoginState) (now : Timestamp) (s : Session) : Type 0 where
    pub code : Bytes
    pub token : T
    pub jwt : Bytes
    pub claims : Claims
    pub no_error : q.error ≡ none
    pub same_state : unwrap_or q.state [] ≡ login.state
    pub in_time : jiff.as_second now ≤ℤ login.exp
    pub has_code : q.code ≡ some code
    pub exchanged : self.client.exchange_code code login.pkce_verifier ≡ ok token
    pub has_id_token : self.client.id_token token ≡ some jwt
    pub verified : self.client.verified_claims jwt login.nonce ≡ ok claims
    pub subject : s.sub ≡ claims.subject
    pub rights : s.admin ≡ is_admin self jwt
    pub lifetime : s.exp ≡ wrap_i64 (jiff.as_second now +ℤ ttl)
    pub own_csrf : s.csrf ≡ csrf
    pub login_time : s.auth_time ≡ claims.auth_time
    pub forced :
        login.reauth ≡ true
        → (t : ℤ) × (s.auth_time ≡ some t)
          × (login.started -ℤ clock_skew_secs ≤ℤ t)
          × (t ≤ℤ jiff.as_second now +ℤ clock_skew_secs)

  -- A callback opens a session only for a login that this browser started and that has not expired: the
  -- state it returns with is that of the login's cookie, the code was exchanged with the login's
  -- verifier, and the ID token was verified under its nonce. The session is that of the token's
  -- subject, with the rights that its claims give; after a forced login the time of the login is known
  -- and lies after its start, up to the clock skew. The login's cookie is used up, and the browser is
  -- sent to the login's target.
  pub callback-IsAdmitted :
      (jiff : Jiff) (ttl : ℤ) (csrf : Bytes) (q : CallbackQuery) (jar after : Jar) (now : Timestamp)
      (target : Bytes)
      → callback self jiff oidc ttl csrf q jar now ≡ ok (after, target)
      → (login : LoginState) × (s : Session) × (jar.login ≡ some login)
        × IsAdmitted jiff ttl csrf q login now s
        × (target ≡ login.next)
        × (after ≡ record { login = none; session = some s })
  unfolding callback
  callback-IsAdmitted jiff ttl csrf q jar after now target h =
      elim (Result-cases (returned self jiff q jar now)) [
        | inr (e, p) ↦ absurd (ground arith)
        | inl ((code, login), p) ↦ elim (Result-cases (identify self code login)) [
          | inr (e, p2) ↦ absurd (ground arith)
          | inl ((jwt, claims), p2) ↦
              elim (Result-cases (login_auth_time jiff claims.auth_time login now)) [
                | inr (e, p3) ↦ absurd (ground arith)
                | inl (auth_time, p3) ↦
                    let (there, no_error, has_code, same, in_time) =
                      returned-ok jiff q jar now code login p in
                    let (token, exchanged, has_id, verified) =
                      identify-ok code jwt login claims p2 in
                    let (kept, forced) =
                      login_auth_time-ok jiff claims.auth_time auth_time login now p3 in
                    let s = session_for self jiff ttl csrf jwt claims auth_time now in
                    (
                      login,
                      s,
                      there,
                      record {
                        code = code;
                        token = token;
                        jwt = jwt;
                        claims = claims;
                        no_error = no_error;
                        same_state = same;
                        in_time = in_time;
                        has_code = has_code;
                        exchanged = exchanged;
                        has_id_token = has_id;
                        verified = verified;
                        subject = refl;
                        rights = refl;
                        lifetime = refl;
                        own_csrf = refl;
                        login_time = kept;
                        forced = forced;
                      },
                      ground arith,
                      ground arith,
                    )
              ]
        ]
      ]
