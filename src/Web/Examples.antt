-- ===== src/Web/Examples.antt =====
-- A POST that rotates a key, and others that may not.
mod Answered
mod Always
use you_spin_me.Prelude.{
  ℕ, List, All, length, unwrap_or, true, ◌*◌, ℤ, map_option, contains, ◌≡◌, ◌⊎◌, refl, false, none,
  some, [], ◌∷◌, ok, err, Bytes, codes, pos, bytes_eq, split, starts_with, trim, ◌+ℤ◌, ◌-ℤ◌,
}
use you_spin_me.Session.{
  oidc, check_csrf, constant_time_eq, differences, user_of, admin_of, is_expired,
}
use you_spin_me.Login
use you_spin_me.Login.Examples.{self, random, session, query}
use you_spin_me.Web.Sessions.{IsHonest}
use you_spin_me.Web.Browsing.{opens, visits, Browse-IsHonest}
use you_spin_me.Time.{second}
use you_spin_me.Config.Examples.{config}
use you_spin_me.Crd.{ApiKey, empty_status}
use you_spin_me.Repo.Memory
use you_spin_me.Repo.Memory.{MemoryRepository}
use you_spin_me.Targets.{MemoryWriter}
use you_spin_me.Rotator.{World, rotate}
use you_spin_me.Rotator.Examples.{
  repo, store, writes_alike, probes_alike, key, rotation, before, accepts, rotator,
}
use you_spin_me.Validation.Examples.{plain_crates}
use you_spin_me.Pages.{Reply, redirect, html, rendered}
use you_spin_me.Pages.Forms.{parse_date}
use you_spin_me.Pages.Actions.{rotate_checked, rotate_page}
use you_spin_me.Web.{
  get, post, Response, Axum, Site, Visit, security_headers, error_response, rejection_response,
  set_header,
}
use you_spin_me.Web.Routes.{route_of, of_parts}
use you_spin_me.Web.Serving.{
  origin, serve_login, serve_callback, serve_rotate, handle, origin_check, serve,
}
use you_spin_me.Web.Guarded.{MayChange, serve-MayChange}
use you_spin_me.Web.Entries.{Served, after, ComesOf, serve-IsAccounted}
use you_spin_me.Web.Blind.{keyed, AlikeServed}
use you_spin_me.Web.NoLeak.{serve_blind}
use you_spin_me.Metrics.{no_metrics}
use you_spin_me.Web.Headed.{IsHeaded, serve-IsHeaded}

abbrev plain_reply : Reply → Response
plain_reply (redirect url) = record {
  status = 303;
  headers = (codes "location", url) ∷ [];
  body = [];
}
plain_reply (html extra text) = record { status = 200; headers = extra; body = text }

abbrev axum : Axum
axum = record {
  of_reply = plain_reply;
  of_html = λ s b. record { status = s; headers = []; body = b };
  of_text = λ s b. record { status = s; headers = []; body = b };
  method_not_allowed = record { status = 405; headers = []; body = [] };
  unreadable = record { status = 422; headers = []; body = [] };
  decoded = λ s. some s;
  url_path = λ u. none;
  embedded = λ p. none;
  mime_of = λ p. codes "text/css";
  of_asset = λ hs b. record { status = 200; headers = hs; body = b };
  asset_missing = record { status = 404; headers = []; body = [] };
  origin_of = λ u. u;
}

abbrev site : Site Bytes MemoryRepository MemoryWriter
site = record {
  app = record {
    crates = record {
      views = record { crates = plain_crates; url_text = λ u. u; to_lowercase = λ s. s };
      render = λ page. ok (codes "page");
      midnight = λ d. err none;
      urlencode = λ s. s;
    };
    cfg = config;
    mode = oidc;
    rotator = rotator accepts;
    asset_version = codes "1";
  };
  oidc = self;
  axum = axum;
}

-- A rotation of the key "bot", by the admin of the session.
abbrev visit : Bytes → Bytes → Visit
visit from token = record {
  method = post;
  path = codes "/keys/bot/rotate";
  path_and_query = some (codes "/keys/bot/rotate");
  origin = some from;
  headers = record { contains_key = λ n. false; get = λ n. none };
  jar = record { login = none; session = some session };
  plain_jar = λ n. none;
  filters = none;
  notice = none;
  record_form = none;
  rotate_form = some (record {
    csrf = some token;
    key = codes "s3cret";
    expires_at = [];
    skip_verification = none;
  });
  logout_form = none;
  login_query = none;
  callback_query = none;
  random = random;
  csrf = codes "tok";
}

abbrev good : Visit
good = visit (codes "https://keys.example") (codes "tok")

-- To unfold it is to unfold all that serving a rotation runs.
unfoldable serving : Unit {0}
unfolding rotation serve origin_check handle serve_rotate serve_login serve_callback Login.login
    Login.callback Login.returned Login.identify Login.login_auth_time Login.claim_contains
    Login.safe_next contains rotate_page rotate_checked parse_date security_headers set_header
    error_response rejection_response route_of of_parts split starts_with check_csrf
    constant_time_eq differences user_of admin_of is_expired rendered trim bytes_eq ◌+ℤ◌ ◌-ℤ◌
serving = tt

serve_tests :
    ((serve site before good (pos 0) (pos 7)).0
      ≡ (rotate
          (rotator accepts)
          before
          (codes "bot")
          (record {
            value = codes "s3cret";
            actor = record { sub = codes "u1"; name = codes "ada@example.com" };
            manual_expires_at = none;
            skip_verification = false;
          })
          (pos 7)).0)
    × ((serve site before
          (visit (codes "https://evil.example") (codes "tok"))
          (pos 0)
          (pos 7)).2.status
        ≡ 403)
    × ((serve site before
          (visit (codes "https://keys.example") (codes "no"))
          (pos 0)
          (pos 7)).2.status
        ≡ 403)
    × ((serve site before (record good { path = codes "/keys/bot" }) (pos 0) (pos 7)).2.status
        ≡ 405)
    × ((serve site before (record good { path = codes "/nowhere" }) (pos 0) (pos 7)).2.status ≡ 404)
unfolding serving
serve_tests = (refl, refl, refl, refl, refl)

serve-MayChange_example :
    ((serve site before good (pos 0) (pos 7)).0 ≡ before)
    ⊎ ((good.method ≡ post)
        × (good.origin ≡ some (origin site))
        × MayChange site before good
            (pos 0)
            (pos 7)
            (route_of good.path)
            (serve site before good (pos 0) (pos 7)).0)
serve-MayChange_example = serve-MayChange site before good (pos 0) (pos 7)

serve_blind_example :
    AlikeServed
      (λ a b. a ≡ b)
      (serve site before (keyed good (codes "s3cret")) (pos 0) (pos 7))
      (serve site before (keyed good (codes "s3cres")) (pos 0) (pos 7))
serve_blind_example =
    serve_blind site (λ a b. a ≡ b) (codes "s3cret") (codes "s3cres") repo no_metrics store store
      refl good (pos 0) (pos 7) writes_alike probes_alike (unfold trim in refl)

serve-IsHeaded_example : IsHeaded good.path (serve site before good (pos 0) (pos 7)).2
serve-IsHeaded_example = serve-IsHeaded site before good (pos 0) (pos 7)

-- The program after a rotation that fails nowhere, and the key that it holds then.
abbrev calm : World MemoryRepository MemoryWriter
calm = record before { store = record { writes = []; failing = [] } }

abbrev past : List Served
past = record { visit = good; asked = pos 0; now = pos 7 } ∷ []

abbrev rotated_key : ApiKey
rotated_key = unwrap_or (Memory.get (after site calm past).repo (codes "bot")) key

is_rotated :
    (Memory.get (after site calm past).repo (codes "bot") ≡ some rotated_key)
    × (length (unwrap_or rotated_key.status empty_status).history ≡ 1)
unfolding serving Memory.get Memory.lookup
is_rotated = (refl, refl)

serve-IsAccounted_example :
    All
      (ComesOf site calm.repo past (codes "bot"))
      (unwrap_or rotated_key.status empty_status).history
serve-IsAccounted_example = serve-IsAccounted site calm past (codes "bot") rotated_key is_rotated.0

-- A browser logs in: it asks for the login, and comes back from the provider.
abbrev seconds : ℕ → ℤ
seconds n = pos (n * second)

abbrev first : Visit
first = record good {
  method = get;
  path = codes "/auth/login";
  jar = record { login = none; session = none };
  login_query = some (record { next = some (codes "/keys/a"); reauth = true });
}

abbrev world_1 : World MemoryRepository MemoryWriter
world_1 = (serve site before first (seconds 1000) (seconds 1000)).0

abbrev back : Visit
back = record good {
  method = get;
  path = codes "/auth/callback";
  jar = (serve site before first (seconds 1000) (seconds 1000)).1;
  callback_query = some query;
}

login_test :
    map_option (λ s. s.name) (serve site world_1 back (seconds 1020) (seconds 1020)).1.session
    ≡ some (codes "ada@example.com")
unfolding serving
login_test = refl

Browse-IsHonest_example :
    IsHonest site
      ((back, seconds 1020) ∷ (first, seconds 1000) ∷ [])
      (serve site world_1 back (seconds 1020) (seconds 1020)).1
Browse-IsHonest_example = Browse-IsHonest site (
    visits (visits (opens before) first (seconds 1000) (seconds 1000) refl) back (seconds 1020)
      (seconds 1020) refl)
