-- ===== src/Web/Guarded.antt =====
-- What a request may change: the guards of src/web/mod.rs, src/web/auth.rs and src/web/pages.rs, all
-- together.
use you_spin_me.Prelude.{
  ◌≡◌, ◌⊎◌, inl, inr, refl, ap, sym, subst, if◌then◌else◌, arith, Bool, true, false, Bool-cases,
  Option, none, some, Option-cases, ok, Result-cases, Bytes, bytes_eq, bytes_eq_iff,
}
use you_spin_me.Time.{Timestamp}
use you_spin_me.Session.{Session, provided, fresh_enough}
use you_spin_me.Login.{Jar}
use you_spin_me.Rotator.{World}
use you_spin_me.Pages.Forms.{RecordForm, RotateForm}
use you_spin_me.Pages.Actions.{csrf_header, record_checked, rotate_checked}
use you_spin_me.Pages.Guarded.{record_page-change, rotate_page-change}
use you_spin_me.Web.{
  Method, get, head, options, post, other, Response, Site, Visit, is_safe, same_origin,
}
use you_spin_me.Web.Routes.{
  Route, at_index, at_key, at_record, at_rotate, at_login, at_callback, at_logout, at_asset,
  nowhere, route_of,
}
use you_spin_me.Web.Serving.{
  jiff, origin, admin, gets, posts, kept, unmoved, logout, serve_record, serve_rotate, handle,
  origin_check, serve, is_post,
}

Method-cases : (m : Method) → (m ≡ post) ⊎ (is_post m ≡ false)
Method-cases post = inl refl
Method-cases get = inr refl
Method-cases head = inr refl
Method-cases options = inr refl
Method-cases other = inr refl

if_same {ℓ} :
    {A : Type ℓ} (a b : Bool) (x z : A) → b ≡ true → (if a then x else if b then x else z) ≡ x
if_same a b x z h = ground arith

if_other {ℓ} :
    {A : Type ℓ} (m : Method) (b : Bool) (x z : A)
    → m ≡ post
    → b ≡ false
    → (if is_safe m then x else if b then x else z) ≡ z
if_other m b x z e h = rw (e, h) refl

same_origin-cases :
    (o : Option Bytes) (public : Bytes)
    → ((same_origin o public ≡ true) × (o ≡ some public)) ⊎ (same_origin o public ≡ false)
same_origin-cases none public = inr refl
same_origin-cases (some o) public = elim (Bool-cases (bytes_eq o public)) [
  | inl e ↦ let (to, from) = bytes_eq_iff o public in inl (e, ap some (to e))
  | inr e ↦ inr e
]

module _ {T R W : Type 0} (site : Site T R W) (v : Visit) (asked : Timestamp) where
  -- A request of an admin, with the token of the session, for the key `name`.
  pub record IsTrusted (csrf : Option Bytes) (raw : Bytes) (session : Session) (name : Bytes)
      : Type 0 where
    pub rights : admin site v asked ≡ ok session
    pub token : provided (v.headers.get csrf_header) csrf ≡ session.csrf
    pub named : site.axum.decoded raw ≡ some name

module _ {T R W : Type 0} (site : Site T R W) (w : World R W) (v : Visit)
    (asked now : Timestamp) where
  -- `w'` comes of recording a rotation, on behalf of an admin whose login is fresh enough.
  pub record IsRecord (raw : Bytes) (w' : World R W) : Type 0 where
    pub session : Session
    pub name : Bytes
    pub form : RecordForm
    pub filled : v.record_form ≡ some form
    pub trusted : IsTrusted site v asked form.csrf raw session name
    pub fresh : fresh_enough (jiff site) session site.app.cfg.auth.step_up_max_age now ≡ true
    pub result : w' ≡ (record_checked site.app w session name form now).0

  pub record IsRotate (raw : Bytes) (w' : World R W) : Type 0 where
    pub session : Session
    pub name : Bytes
    pub form : RotateForm
    pub filled : v.rotate_form ≡ some form
    pub trusted : IsTrusted site v asked form.csrf raw session name
    pub result : w' ≡ (rotate_checked site.app w session name form now).0

  serve_record-change :
      (raw : Bytes)
      → ((serve_record site w v raw asked now).0 ≡ w)
        ⊎ IsRecord raw (serve_record site w v raw asked now).0
  unfolding serve_record
  serve_record-change raw = elim (Result-cases (admin site v asked)) [
    | inr (e, p) ↦ inl (ground arith)
    | inl (session, p) ↦ elim (Option-cases (site.axum.decoded raw)) [
      | inl q ↦ inl (ground arith)
      | inr (name, q) ↦ elim (Option-cases v.record_form) [
        | inl f ↦ inl (ground arith)
        | inr (form, f) ↦ elim (record_page-change site.app w session v.headers name now form) [
          | inl same ↦ inl (ground arith)
          | inr (token, fresh, result) ↦ inr (record {
            session = session;
            name = name;
            form = form;
            filled = f;
            trusted = record { rights = p; token = token; named = q };
            fresh = fresh;
            result = ground arith;
          })
        ]
      ]
    ]
  ]

  serve_rotate-change :
      (raw : Bytes)
      → ((serve_rotate site w v raw asked now).0 ≡ w)
        ⊎ IsRotate raw (serve_rotate site w v raw asked now).0
  unfolding serve_rotate
  serve_rotate-change raw = elim (Result-cases (admin site v asked)) [
    | inr (e, p) ↦ inl (ground arith)
    | inl (session, p) ↦ elim (Option-cases (site.axum.decoded raw)) [
      | inl q ↦ inl (ground arith)
      | inr (name, q) ↦ elim (Option-cases v.rotate_form) [
        | inl f ↦ inl (ground arith)
        | inr (form, f) ↦ elim (rotate_page-change site.app w session v.headers name now form) [
          | inl same ↦ inl (ground arith)
          | inr (token, result) ↦ inr (record {
            session = session;
            name = name;
            form = form;
            filled = f;
            trusted = record { rights = p; token = token; named = q };
            result = ground arith;
          })
        ]
      ]
    ]
  ]

  -- The changes that a route may make.
  abbrev pub MayChange : Route → World R W → Type 0
  MayChange (at_record raw) w' = IsRecord raw w'
  MayChange (at_rotate raw) w' = IsRotate raw w'
  MayChange at_index w' = ⊥
  MayChange (at_key raw) w' = ⊥
  MayChange at_login w' = ⊥
  MayChange at_callback w' = ⊥
  MayChange at_logout w' = ⊥
  MayChange (at_asset raw) w' = ⊥
  MayChange nowhere w' = ⊥

  gets-change : (r : Jar × Response) → (gets site w v r).0 ≡ w
  gets-change r = ground arith

  posts-change :
      (P : World R W → Type 0) (r : World R W × Jar × Response)
      → (r.0 ≡ w) ⊎ P r.0
      → ((posts site w v r).0 ≡ w) ⊎ ((v.method ≡ post) × P (posts site w v r).0)
  posts-change P r h = elim (Method-cases v.method) [
    | inr e ↦ inl (rw e refl)
    | inl e ↦ elim h [ inl same ↦ inl (ground arith) | inr changed ↦ inr (e, rw e changed) ]
  ]

  handle-change :
      (route : Route)
      → ((handle site w v route asked now).0 ≡ w)
        ⊎ ((v.method ≡ post) × MayChange route (handle site w v route asked now).0)
  unfolding handle
  handle-change at_index = inl (gets-change _)
  handle-change (at_key raw) = inl (gets-change _)
  handle-change (at_record raw) =
      posts-change (IsRecord raw) (kept site v (serve_record site w v raw asked now))
        (serve_record-change raw)
  handle-change (at_rotate raw) =
      posts-change (IsRotate raw) (kept site v (serve_rotate site w v raw asked now))
        (serve_rotate-change raw)
  handle-change at_login = inl (gets-change _)
  handle-change at_callback = inl (gets-change _)
  handle-change at_logout =
      elim (posts-change (λ _. ⊥) (unmoved site w (logout site v asked)) (inl refl)) [
        | inl same ↦ inl same
        | inr (e, no_change) ↦ absurd no_change
      ]
  handle-change (at_asset raw) = inl (gets-change _)
  handle-change nowhere = inl refl

  -- Of all requests, only these change what the program keeps: a POST whose Origin is the public one, of
  -- a logged-in admin, with the CSRF token of the session in the header or else in the form, for a name
  -- and a form that can be read, at the route of recording, where the login must also be fresh enough,
  -- or of rotating. What changes is then what recording or rotating that key does.
  pub serve-MayChange :
      ((serve site w v asked now).0 ≡ w)
      ⊎ ((v.method ≡ post)
          × (v.origin ≡ some (origin site))
          × MayChange (route_of v.path) (serve site w v asked now).0)
  unfolding serve origin_check
  serve-MayChange = elim (handle-change (route_of v.path)) [
    | inl same ↦ inl (ground arith)
    | inr (e, changed) ↦ elim (same_origin-cases v.origin (origin site)) [
      | inl (same, o) ↦ inr (
        e,
        o,
        subst (λ (r : World R W × Jar × Response). MayChange (route_of v.path) r.0)
            (sym (if_same (is_safe v.method) _ _ _ same)) changed,
      )
      | inr different ↦
          inl (ap (λ (r : World R W × Jar × Response). r.0) (if_other v.method _ _ _ e different))
    ]
  ]
