-- ===== src/Web/Sessions.antt =====
-- The sessions that browsers hold. The cookies are encrypted with the program's key, so a browser
-- sends back what the program gave it, or less.
use you_spin_me.Prelude.{◌≡◌, ◌⊎◌, inr, arith, none, some, List, [], ◌∷◌, ℤ, ◌+ℤ◌}
use you_spin_me.Time.{Timestamp}
use you_spin_me.Session.{Session}
use you_spin_me.Login.{LoginState, Jar, CallbackQuery, safe_next, login_ttl_secs}
use you_spin_me.Login.Admits.{IsAdmitted}
use you_spin_me.Web.{Site, Visit, LoginQuery}
use you_spin_me.Web.Routes.{at_login, at_callback, route_of}
use you_spin_me.Web.Serving.{jiff}

-- The visits of a browser, each with the instant at which its handler ran.
abbrev pub Past : Type 0
Past = List (Visit × Timestamp)

abbrev pub IsIn : Visit → Timestamp → Past → Type 0
IsIn v at [] = ⊥
IsIn v at ((u, t) ∷ past) = ((u ≡ v) × (t ≡ at)) ⊎ IsIn v at past

module _ {T R W : Type 0} (site : Site T R W) where
  abbrev pub session_ttl : ℤ
  session_ttl = (jiff site).as_secs site.app.cfg.auth.session_ttl

  -- The login was started by one of the visits, at the route for it: it has the texts drawn for that
  -- visit, it ends in time, and it leads to what `safe_next` makes of the page asked for.
  pub record IsStarted (past : Past) (login : LoginState) : Type 0 where
    pub visit : Visit
    pub at : Timestamp
    pub happened : IsIn visit at past
    pub routed : route_of visit.path ≡ at_login
    pub query : LoginQuery
    pub has_query : visit.login_query ≡ some query
    pub same_state : login.state ≡ visit.random.state
    pub same_nonce : login.nonce ≡ visit.random.nonce
    pub same_verifier : login.pkce_verifier ≡ visit.random.pkce_verifier
    pub target : login.next ≡ safe_next query.next
    pub since : login.started ≡ (jiff site).as_second at
    pub lifetime : login.exp ≡ (jiff site).as_second at +ℤ login_ttl_secs
    pub forced : login.reauth ≡ query.reauth

  -- The session was opened by one of the visits, a callback, for a login that one of them started.
  pub record IsOpened (past : Past) (s : Session) : Type 0 where
    pub visit : Visit
    pub at : Timestamp
    pub happened : IsIn visit at past
    pub routed : route_of visit.path ≡ at_callback
    pub query : CallbackQuery
    pub has_query : visit.callback_query ≡ some query
    pub login : LoginState
    pub started : IsStarted past login
    pub admitted : IsAdmitted site.oidc (jiff site) session_ttl visit.csrf query login at s

  -- All that the cookies hold comes of the visits.
  pub record IsHonest (past : Past) (jar : Jar) : Type 0 where
    pub logins : (login : LoginState) → jar.login ≡ some login → IsStarted past login
    pub sessions : (s : Session) → jar.session ≡ some s → IsOpened past s

  IsStarted-later :
      (u : Visit) (t : Timestamp) (past : Past) (login : LoginState)
      → IsStarted past login
      → IsStarted ((u, t) ∷ past) login
  IsStarted-later u t past login h = record {
    visit = h.visit;
    at = h.at;
    happened = inr h.happened;
    routed = h.routed;
    query = h.query;
    has_query = h.has_query;
    same_state = h.same_state;
    same_nonce = h.same_nonce;
    same_verifier = h.same_verifier;
    target = h.target;
    since = h.since;
    lifetime = h.lifetime;
    forced = h.forced;
  }

  pub IsHonest-later :
      (u : Visit) (t : Timestamp) (past : Past) (jar : Jar)
      → IsHonest past jar
      → IsHonest ((u, t) ∷ past) jar
  IsHonest-later u t past jar h = record {
    logins = λ l is. IsStarted-later u t past l (h.logins l is);
    sessions = λ s is.
        let o = h.sessions s is in
        record {
          visit = o.visit;
          at = o.at;
          happened = inr o.happened;
          routed = o.routed;
          query = o.query;
          has_query = o.has_query;
          login = o.login;
          started = IsStarted-later u t past o.login o.started;
          admitted = o.admitted;
        };
  }

  pub without_login :
      (past : Past) (jar : Jar) → IsHonest past jar → IsHonest past (record jar { login = none })
  without_login past jar h = record {
    logins = λ l is. absurd (ground arith);
    sessions = h.sessions;
  }

  pub without_session :
      (past : Past) (jar : Jar) → IsHonest past jar → IsHonest past (record jar { session = none })
  without_session past jar h = record {
    logins = h.logins;
    sessions = λ s is. absurd (ground arith);
  }
