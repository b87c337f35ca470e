-- ===== src/Web/Browsing.antt =====
-- The cookies of a browser, from visit to visit.
use you_spin_me.Prelude.{
  ◌≡◌, ◌⊎◌, inl, inr, refl, sym, subst, arith, Bool-cases, none, some, Option-cases, [], ◌∷◌, ok,
  Result-cases, Bytes, ◌+ℤ◌,
}
use you_spin_me.Time.{Timestamp}
use you_spin_me.Session.{Mode, oidc, insecure_dev, check_csrf}
use you_spin_me.Login
use you_spin_me.Login.{LoginState, Oidc, Jar, CallbackQuery, Random, safe_next, login_ttl_secs}
use you_spin_me.Login.Admits.{callback-IsAdmitted}
use you_spin_me.Rotator.{World}
use you_spin_me.Pages.Actions.{csrf_header}
use you_spin_me.Web.{Response, Site, Visit, LoginQuery, is_safe, same_origin}
use you_spin_me.Web.Routes.{
  Route, at_index, at_key, at_record, at_rotate, at_login, at_callback, at_logout, at_asset,
  nowhere, route_of,
}
use you_spin_me.Web.Serving.{
  jiff, user, serve_login, serve_callback, logout, gets, posts, is_get, is_post, origin, handle,
  origin_check, serve,
}
use you_spin_me.Web.Sessions.{
  Past, IsIn, session_ttl, IsStarted, IsOpened, IsHonest, IsHonest-later, without_login,
  without_session,
}

module _ {T R W : Type 0} (site : Site T R W) where
  abbrev started_for : LoginQuery → Random → Timestamp → LoginState
  started_for q random now = record {
    state = random.state;
    nonce = random.nonce;
    pkce_verifier = random.pkce_verifier;
    next = safe_next q.next;
    started = (jiff site).as_second now;
    exp = (jiff site).as_second now +ℤ login_ttl_secs;
    reauth = q.reauth;
  }

  logout-jar :
      (v : Visit) (asked : Timestamp)
      → ((logout site v asked).0 ≡ v.jar)
        ⊎ ((logout site v asked).0 ≡ record v.jar { session = none })
  unfolding logout
  logout-jar v asked = elim (Result-cases (user site v asked)) [
    | inr (x, p) ↦ inl (ground arith)
    | inl (session, p) ↦ elim (Option-cases v.logout_form) [
      | inl e ↦ inl (ground arith)
      | inr (form, e) ↦ elim (Result-cases (check_csrf session (v.headers.get csrf_header) form)) [
        | inr (x, p2) ↦ inl (ground arith)
        | inl (u, p2) ↦ inr (ground arith)
      ]
    ]
  ]

  module _ (past : Past) (v : Visit) (now : Timestamp) (happened : IsIn v now past)
      (h : IsHonest site past v.jar) where
    started_for-IsStarted :
        (q : LoginQuery)
        → route_of v.path ≡ at_login
        → v.login_query ≡ some q
        → IsStarted site past (started_for q v.random now)
    started_for-IsStarted q routed e = record {
      visit = v;
      at = now;
      happened = happened;
      routed = routed;
      query = q;
      has_query = e;
      same_state = refl;
      same_nonce = refl;
      same_verifier = refl;
      target = refl;
      since = refl;
      lifetime = refl;
      forced = refl;
    }

    login-IsHonest :
        (mode : Mode) (q : LoginQuery) (jar : Jar) (url : Bytes)
        → route_of v.path ≡ at_login
        → v.login_query ≡ some q
        → Login.login site.oidc (jiff site) mode q.next q.reauth v.random v.jar now ≡ ok (jar, url)
        → IsHonest site past jar
    unfolding Login.login
    login-IsHonest (insecure_dev c) q jar url routed asks e =
        let same : v.jar ≡ jar = ground arith in subst (IsHonest site past) same h
    login-IsHonest oidc q jar url routed asks e = elim (Result-cases site.oidc.client.discover) [
      | inr (x, p) ↦ absurd (ground arith)
      | inl (u, p) ↦
          let same : record v.jar { login = some (started_for q v.random now) } ≡ jar =
            ground arith in
          subst (IsHonest site past) same (record {
            logins = λ l is.
                let is' : started_for q v.random now ≡ l = ground arith in
                subst (IsStarted site past) is' (started_for-IsStarted q routed asks);
            sessions = h.sessions;
          })
    ]

    callback-IsHonest :
        (mode : Mode) (q : CallbackQuery) (jar : Jar) (url : Bytes)
        → route_of v.path ≡ at_callback
        → v.callback_query ≡ some q
        → Login.callback site.oidc (jiff site) mode (session_ttl site) v.csrf q v.jar now
          ≡ ok (jar, url)
        → IsHonest site past jar
    unfolding Login.callback
    callback-IsHonest (insecure_dev c) q jar url routed asks e =
        let same : v.jar ≡ jar = ground arith in subst (IsHonest site past) same h
    callback-IsHonest oidc q jar url routed asks e =
        let (login, s, there, admitted, target, same) =
          callback-IsAdmitted site.oidc (jiff site) (session_ttl site) v.csrf q v.jar jar now url
            e in
        subst (IsHonest site past) (sym same) (record {
          logins = λ l is. absurd (ground arith);
          sessions = λ t is.
              let is' : s ≡ t = ground arith in
              subst (IsOpened site past) is' (record {
                visit = v;
                at = now;
                happened = happened;
                routed = routed;
                query = q;
                has_query = asks;
                login = login;
                started = h.logins login there;
                admitted = admitted;
              });
        })

    serve_login-IsHonest :
        route_of v.path ≡ at_login → IsHonest site past (serve_login site v now).0
    unfolding serve_login
    serve_login-IsHonest routed = elim (Option-cases v.login_query) [
      | inl e ↦ rw e h
      | inr (q, e) ↦
          elim (Result-cases
            (Login.login site.oidc (jiff site) site.app.mode q.next q.reauth v.random v.jar now)) [
              | inr (x, p) ↦ rw (e, p) h
              | inl ((jar, url), p) ↦ rw (e, p) (login-IsHonest site.app.mode q jar url routed e p)
            ]
    ]

    serve_callback-IsHonest :
        route_of v.path ≡ at_callback → IsHonest site past (serve_callback site v now).0
    unfolding serve_callback
    serve_callback-IsHonest routed = elim (Option-cases v.callback_query) [
      | inl e ↦ rw e h
      | inr (q, e) ↦
          elim (Result-cases (
            Login.callback site.oidc (jiff site) site.app.mode (session_ttl site) v.csrf q v.jar
              now)) [
                | inr (x, p) ↦ rw (e, p) h
                | inl ((jar, url), p) ↦
                    rw (e, p) (callback-IsHonest site.app.mode q jar url routed e p)
              ]
    ]

    logout-IsHonest : (asked : Timestamp) → IsHonest site past (logout site v asked).0
    logout-IsHonest asked = elim (logout-jar v asked) [
      | inl same ↦ subst (IsHonest site past) (sym same) h
      | inr out ↦ subst (IsHonest site past) (sym out) (without_session site past v.jar h)
    ]

    module _ (w : World R W) (asked : Timestamp) where
      gets-IsHonest :
          (r : Jar × Response) → IsHonest site past r.0 → IsHonest site past (gets site w v r).1
      gets-IsHonest r k = elim (Bool-cases (is_get v.method)) [ inl e ↦ rw e k | inr e ↦ rw e h ]

      posts-IsHonest :
          (r : World R W × Jar × Response)
          → IsHonest site past r.1
          → IsHonest site past (posts site w v r).1
      posts-IsHonest r k = elim (Bool-cases (is_post v.method)) [ inl e ↦ rw e k | inr e ↦ rw e h ]

      handle-IsHonest :
          (route : Route)
          → route_of v.path ≡ route
          → IsHonest site past (handle site w v route asked now).1
      unfolding handle
      handle-IsHonest at_index e = gets-IsHonest _ h
      handle-IsHonest (at_key raw) e = gets-IsHonest _ h
      handle-IsHonest (at_record raw) e = posts-IsHonest _ h
      handle-IsHonest (at_rotate raw) e = posts-IsHonest _ h
      handle-IsHonest at_login e = gets-IsHonest _ (serve_login-IsHonest e)
      handle-IsHonest at_callback e = gets-IsHonest _ (serve_callback-IsHonest e)
      handle-IsHonest at_logout e = posts-IsHonest _ (logout-IsHonest asked)
      handle-IsHonest (at_asset raw) e = gets-IsHonest _ h
      handle-IsHonest nowhere e = h

      serve-IsHonest : IsHonest site past (serve site w v asked now).1
      unfolding serve origin_check
      serve-IsHonest = elim (Bool-cases (is_safe v.method)) [
        | inl e ↦ rw e (handle-IsHonest (route_of v.path) refl)
        | inr e ↦ elim (Bool-cases (same_origin v.origin (origin site))) [
          | inl e2 ↦ rw (e, e2) (handle-IsHonest (route_of v.path) refl)
          | inr e2 ↦ rw (e, e2) h
        ]
      ]

  -- What can happen to one browser: it visits, sending back its cookies; others visit; and it forgets a
  -- cookie. It starts with none.
  pub data Browse : World R W → Past → Jar → Type 0 where
    opens : (w : World R W) → Browse w [] (record { login = none; session = none })
    visits :
        {w : World R W} {past : Past} {jar : Jar}
        → Browse w past jar
        → (v : Visit) (asked now : Timestamp) → v.jar ≡ jar
        → Browse (serve site w v asked now).0 ((v, now) ∷ past) (serve site w v asked now).1
    others :
        {w : World R W} {past : Past} {jar : Jar}
        → Browse w past jar
        → (v : Visit) (asked now : Timestamp) → Browse (serve site w v asked now).0 past jar
    forgets_login :
        {w : World R W} {past : Past} {jar : Jar}
        → Browse w past jar
        → Browse w past (record jar { login = none })
    forgets_session :
        {w : World R W} {past : Past} {jar : Jar}
        → Browse w past jar
        → Browse w past (record jar { session = none })

  -- Whatever a browser visits that starts without cookies, and whatever others do: a session in its
  -- cookies was opened by one of its own visits, a callback, for a login that one of its own visits
  -- started; and a login in its cookies was started by one of its own visits.
  pub Browse-IsHonest :
      {w : World R W} {past : Past} {jar : Jar} → Browse w past jar → IsHonest site past jar
  Browse-IsHonest (opens w) = record {
    logins = λ login is. absurd (ground arith);
    sessions = λ s is. absurd (ground arith);
  }
  Browse-IsHonest (visits {w = w} {past = past} {jar = jar} b v asked now same) =
      serve-IsHonest ((v, now) ∷ past) v now (inl (refl, refl))
        (subst (IsHonest site ((v, now) ∷ past)) (sym same)
          (IsHonest-later site v now past jar (Browse-IsHonest b)))
        w asked
  Browse-IsHonest (others b v asked now) = Browse-IsHonest b
  Browse-IsHonest (forgets_login {past = past} {jar = jar} b) =
      without_login site past jar (Browse-IsHonest b)
  Browse-IsHonest (forgets_session {past = past} {jar = jar} b) =
      without_session site past jar (Browse-IsHonest b)
