-- ===== src/Config/Chosen.antt =====
-- Which configurations let whom in, and which key files are accepted.
use you_spin_me.Prelude.{
  ◌≤◌, ◌≡◌, ◌⊎◌, ◌↔◌, inl, inr, subst, arith, Bool, true, false, not, ◌&&◌, ◌||◌, Bool-cases,
  Option, none, some, is_some, Option-cases, length, leb, leb→le, Result, ok, err, refl, ◌++◌,
  codes, Result-cases, Bytes, trim, ◌<ℤ◌,
}
use you_spin_me.Time.{Timestamp, Jiff}
use you_spin_me.Session.{Session, Asked, admin_of}
use you_spin_me.Session.Access.{admin_of_iff}
use you_spin_me.Config.{Config, trim_end_slashes}
use you_spin_me.Config.Startup.{
  Outside, Settings, AuthMode, oidc, mode_of, auth_from_config, start_auth, client_secret_of,
  settings_of, key_bytes, load_cookie_key, ◌>>=◌,
}

pub chained :
    {E A B : Type 0} (r : Result E A) (f : A → Result E B) (b : B)
    → r >>= f ≡ ok b
    → (a : A) × (r ≡ ok a) × (f a ≡ ok b)
chained (ok a) f b h = (a, refl, h)
chained (err e) f b h = absurd (ground arith)

-- The documented behaviour of `Key::try_from`: it needs 64 bytes.
abbrev pub IsKeys : {K : Type 0} → Outside K → Type 0
IsKeys outside = (b : Bytes) → is_some (outside.try_key b) ≡ leb 64 (length b)

module _ {K : Type 0} (outside : Outside K) (raw : Bytes) where
  key_bytes_iff : (leb 64 (length (key_bytes outside raw)) ≡ true) ↔ (
      (64 ≤ length raw)
      ⊎ ((b : Bytes) × (outside.base64 (trim (outside.from_utf8_lossy raw)) ≡ some b)
          × (64 ≤ length b)))
  key_bytes_iff = elim (Option-cases (outside.base64 (trim (outside.from_utf8_lossy raw)))) [
    | inl e ↦ (
      λ h. inl (ground arith),
      λ why. elim why [ inl l ↦ ground arith | inr (b, h, l) ↦ absurd (ground arith) ],
    )
    | inr (b, e) ↦ elim (Bool-cases (leb 64 (length b))) [
      | inl long ↦ (λ h. inr (b, e, leb→le _ _ long), λ why. ground arith)
      | inr short ↦ (
        λ h. inl (ground arith),
        λ why. elim why [ inl l ↦ ground arith | inr (c, h, l) ↦ absurd (ground arith) ],
      )
    ]
  ]

pub is_forced : Config → Bool
is_forced cfg = cfg.auth.insecure_dev_auth || (cfg.demo && not (is_some cfg.auth.oidc_issuer))

is_forced_iff :
    (cfg : Config)
    → (is_forced cfg ≡ true)
      ↔ ((cfg.auth.insecure_dev_auth ≡ true) ⊎ ((cfg.demo ≡ true) × (cfg.auth.oidc_issuer ≡ none)))
unfolding is_forced
is_forced_iff cfg = elim (Option-cases cfg.auth.oidc_issuer) [
  | inl e ↦ ground arith
  | inr (issuer, e) ↦ ground arith
]

module _ {K : Type 0} (outside : Outside K) (cfg : Config) where
  -- The settings name the issuer and the client of the configuration, come back to its public URL,
  -- and know admins by its claim.
  abbrev pub AreSettings : Settings → Type 0
  AreSettings s =
      (issuer : Bytes) × (client_id : Bytes) × (cfg.auth.oidc_issuer ≡ some issuer)
      × (cfg.auth.oidc_client_id ≡ some client_id)
      × (outside.issuer_url (trim_end_slashes issuer) ≡ ok s.issuer)
      × (s.client_id ≡ client_id)
      × (outside.redirect_url (trim_end_slashes cfg.public_url ++ codes "/auth/callback")
          ≡ ok s.redirect)
      × (s.admin_claim ≡ cfg.auth.admin_claim)
      × (s.admin_value ≡ cfg.auth.admin_value)

  settings_of-AreSettings :
      (issuer client_id : Bytes) (s : Settings)
      → cfg.auth.oidc_issuer ≡ some issuer
      → cfg.auth.oidc_client_id ≡ some client_id
      → settings_of outside cfg.auth cfg.public_url issuer client_id ≡ ok s
      → AreSettings s
  unfolding settings_of
  settings_of-AreSettings issuer client_id s e c h =
      elim (Result-cases (client_secret_of outside cfg.auth.oidc_client_secret_file)) [
        | inr (x, p) ↦ absurd (ground arith)
        | inl (secret, p) ↦ elim (Result-cases (outside.http_client none)) [
          | inr (x, q) ↦ absurd (ground arith)
          | inl (u, q) ↦ elim (Result-cases (outside.issuer_url (trim_end_slashes issuer))) [
            | inr (x, i) ↦ absurd (ground arith)
            | inl (url, i) ↦
                elim (Result-cases (
                  outside.redirect_url
                    (trim_end_slashes cfg.public_url ++ codes "/auth/callback"))) [
                      | inr (x, r) ↦ absurd (ground arith)
                      | inl (redirect, r) ↦ (
                        issuer,
                        client_id,
                        e,
                        c,
                        ground arith,
                        ground arith,
                        ground arith,
                        ground arith,
                        ground arith,
                      )
                    ]
          ]
        ]
      ]

  pub unforced :
      is_forced cfg ≡ false
      → (mode : AuthMode) → start_auth outside cfg ≡ ok mode
      → (s : Settings) × (mode ≡ oidc s) × AreSettings s
  unfolding start_auth auth_from_config is_forced
  unforced f mode h = elim (Option-cases cfg.auth.oidc_issuer) [
    | inl e ↦ absurd (ground arith)
    | inr (issuer, e) ↦ elim (Option-cases cfg.auth.oidc_client_id) [
      | inl c ↦ absurd (ground arith)
      | inr (client_id, c) ↦
          elim (Result-cases (settings_of outside cfg.auth cfg.public_url issuer client_id)) [
            | inr (x, p) ↦ absurd (ground arith)
            | inl (s, p) ↦ (s, ground arith, settings_of-AreSettings issuer client_id s e c p)
          ]
    ]
  ]

  pub not_forced :
      cfg.auth.insecure_dev_auth ≡ false
      → (cfg.demo ≡ false) ⊎ (is_some cfg.auth.oidc_issuer ≡ true)
      → is_forced cfg ≡ false
  not_forced flag demo =
      let (to, from) = is_forced_iff cfg in
      elim (Bool-cases (is_forced cfg)) [ inl f ↦ absurd (ground (arith, to f)) | inr f ↦ f ]

  -- Started without the flag, and outside of the demo or with an issuer: nobody is an admin but by a
  -- session in the cookie that has not expired and is marked so.
  pub start_auth-admin_of :
      (mode : AuthMode) (jiff : Jiff) (q : Asked) (cookie : Option Session) (now : Timestamp)
      (s : Session)
      → cfg.auth.insecure_dev_auth ≡ false
      → (cfg.demo ≡ false) ⊎ (is_some cfg.auth.oidc_issuer ≡ true)
      → start_auth outside cfg ≡ ok mode
      → admin_of jiff (mode_of mode) q cookie now ≡ ok s
      → (cookie ≡ some s) × (jiff.as_second now <ℤ s.exp) × (s.admin ≡ true)
  start_auth-admin_of mode jiff q cookie now s flag demo h admitted =
      let (settings, e, read) = unforced (not_forced flag demo) mode h in
      (admin_of_iff jiff q cookie now s).0
        (subst (λ m. admin_of jiff (mode_of m) q cookie now ≡ ok s) e admitted)

  -- A key file that can be read is accepted exactly if it has 64 bytes, or is the base64 of as many.
  pub load_cookie_key_iff :
      (path raw : Bytes)
      → IsKeys outside
      → cfg.auth.cookie_key_file ≡ some path
      → outside.read path ≡ ok raw
      → ((key : K) × (load_cookie_key outside cfg ≡ ok key)) ↔ (
          (64 ≤ length raw)
          ⊎ ((b : Bytes) × (outside.base64 (trim (outside.from_utf8_lossy raw)) ≡ some b)
              × (64 ≤ length b)))
  unfolding load_cookie_key
  load_cookie_key_iff path raw laws set there =
      let (to, from) = key_bytes_iff outside raw in
      elim (Option-cases (outside.try_key (key_bytes outside raw))) [
        | inl e ↦ (
          λ (key, h). absurd (ground arith),
          λ why. absurd (ground (arith, from why, laws (key_bytes outside raw))),
        )
        | inr (key, e) ↦
            (λ h. to (ground (arith, laws (key_bytes outside raw))), λ why. (key, ground arith))
      ]
