-- ===== src/Web/Headed.antt =====
-- The headers that every response carries.
use you_spin_me.Prelude.{
  ◌≡◌, ◌∙◌, ◌⊎◌, inl, inr, refl, arith, true, false, Bool-cases, List, [], ◌∷◌, Bytes, codes,
  bytes_eq, bytes_eq_iff, starts_with, if◌then◌else◌,
}
use you_spin_me.Time.{Timestamp}
use you_spin_me.Rotator.{World}
use you_spin_me.Web.{Response, Site, Visit, set_header, security_headers, csp}
use you_spin_me.Web.Serving.{serve}

-- The values that a response has under a name.
unfoldable pub values : Bytes → List (Bytes × Bytes) → List Bytes
values name [] = []
values name ((n, v) ∷ more) =
    let rest = values name more in if bytes_eq n name then v ∷ rest else rest

values-set_header_self :
    (name value : Bytes) (hs : List (Bytes × Bytes))
    → values name (set_header name value hs) ≡ value ∷ []
unfolding values set_header
values-set_header_self name value [] = ground (arith, bytes_eq_iff name name)
values-set_header_self name value ((n, v) ∷ more) =
    ground (arith, values-set_header_self name value more)

values-set_header_other :
    (name other value : Bytes) (hs : List (Bytes × Bytes))
    → bytes_eq other name ≡ false
    → values name (set_header other value hs) ≡ values name hs
unfolding values set_header
values-set_header_other name other value [] h = ground arith
values-set_header_other name other value ((n, v) ∷ more) h =
    ground (arith, values-set_header_other name other value more, bytes_eq_iff n other)

-- A response to a path has exactly these values under these names; only assets may be stored.
pub record IsHeaded (path : Bytes) (r : Response) : Type 0 where
  pub policy : values (codes "content-security-policy") r.headers ≡ csp ∷ []
  pub types : values (codes "x-content-type-options") r.headers ≡ codes "nosniff" ∷ []
  pub frames : values (codes "x-frame-options") r.headers ≡ codes "DENY" ∷ []
  pub referrer : values (codes "referrer-policy") r.headers ≡ codes "same-origin" ∷ []
  pub cache :
      (starts_with path (codes "/assets/") ≡ true)
      ⊎ (values (codes "cache-control") r.headers ≡ codes "no-store" ∷ [])

-- The four headers that come first, in the order in which they are set.
guarded : List (Bytes × Bytes) → List (Bytes × Bytes)
guarded hs = set_header (codes "referrer-policy") (codes "same-origin") (
    set_header (codes "x-frame-options") (codes "DENY") (
      set_header (codes "x-content-type-options") (codes "nosniff")
        (set_header (codes "content-security-policy") csp hs)))

values-guarded :
    (hs : List (Bytes × Bytes))
    → (values (codes "content-security-policy") (guarded hs) ≡ csp ∷ [])
      × (values (codes "x-content-type-options") (guarded hs) ≡ codes "nosniff" ∷ [])
      × (values (codes "x-frame-options") (guarded hs) ≡ codes "DENY" ∷ [])
      × (values (codes "referrer-policy") (guarded hs) ≡ codes "same-origin" ∷ [])
unfolding guarded bytes_eq
values-guarded hs = (
  values-set_header_other _ _ _ _ refl
      ∙ (values-set_header_other _ _ _ _ refl
          ∙ (values-set_header_other _ _ _ _ refl ∙ values-set_header_self _ _ hs)),
  values-set_header_other _ _ _ _ refl
      ∙ (values-set_header_other _ _ _ _ refl ∙ values-set_header_self _ _ _),
  values-set_header_other _ _ _ _ refl ∙ values-set_header_self _ _ _,
  values-set_header_self _ _ _,
)

uncached : List (Bytes × Bytes) → List (Bytes × Bytes)
uncached hs = set_header (codes "cache-control") (codes "no-store") hs

-- A header of another name stays under the last one.
values-uncached :
    (name value : Bytes) (hs : List (Bytes × Bytes))
    → bytes_eq (codes "cache-control") name ≡ false
    → values name hs ≡ value ∷ []
    → values name (uncached hs) ≡ value ∷ []
unfolding uncached
values-uncached name value hs other h = values-set_header_other name _ _ hs other ∙ h

security_headers-headers :
    (path : Bytes) (r : Response)
    → ((starts_with path (codes "/assets/") ≡ true)
        × ((security_headers path r).headers ≡ guarded r.headers))
      ⊎ ((security_headers path r).headers ≡ uncached (guarded r.headers))
unfolding security_headers guarded uncached
security_headers-headers path r = elim (Bool-cases (starts_with path (codes "/assets/"))) [
  | inl e ↦ inl (e, rw e refl)
  | inr e ↦ inr (rw e refl)
]

security_headers-IsHeaded : (path : Bytes) (r : Response) → IsHeaded path (security_headers path r)
unfolding bytes_eq uncached
security_headers-IsHeaded path r =
    let (policy, types, frames, referrer) = values-guarded r.headers in
    elim (security_headers-headers path r) [
      | inl (asset, e) ↦ record {
        policy = rw e policy;
        types = rw e types;
        frames = rw e frames;
        referrer = rw e referrer;
        cache = inl asset;
      }
      | inr e ↦ record {
        policy = rw e (values-uncached _ _ _ refl policy);
        types = rw e (values-uncached _ _ _ refl types);
        frames = rw e (values-uncached _ _ _ refl frames);
        referrer = rw e (values-uncached _ _ _ refl referrer);
        cache = inr (rw e (values-set_header_self _ _ _));
      }
    ]

-- Every response of the program, pages of errors and refusals included, has exactly one
-- Content-Security-Policy, X-Content-Type-Options, X-Frame-Options and Referrer-Policy, the program's
-- own; and may be stored only if its path is that of an asset.
pub serve-IsHeaded :
    {T R W : Type 0} (site : Site T R W) (w : World R W) (v : Visit) (asked now : Timestamp)
    → IsHeaded v.path (serve site w v asked now).2
unfolding serve
serve-IsHeaded site w v asked now = security_headers-IsHeaded v.path _
