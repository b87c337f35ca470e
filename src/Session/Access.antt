-- ===== src/Session/Access.antt =====
-- Who is let in, and which requests of theirs are accepted.
use you_spin_me.Prelude.{
  ◌≡◌, ◌↔◌, inl, inr, arith, Bool, true, false, Option, none, some, Option-cases, Result-cases,
  subst, ◌&&◌, ok, Bytes, ℤ, ◌+ℤ◌, ◌-ℤ◌, ◌≤ℤ◌, ◌<ℤ◌, leb_ℤ, leb_ℤ-cases, int_laws, wrap_i64_lem,
  IsI64,
}
use you_spin_me.Time.{Timestamp, SignedDuration, Jiff}
use you_spin_me.Session.{
  Session, oidc, Asked, clock_skew_secs, is_expired, is_recent, fresh_enough, provided, check_csrf,
  user_of, admin_of,
}
use you_spin_me.Session.Bits.{constant_time_eq_iff}

-- A request passes the CSRF check exactly if the token it provides, in the header or else in the form,
-- is that of the session.
pub check_csrf_iff :
    (s : Session) (header form_token : Option Bytes)
    → (check_csrf s header form_token ≡ ok tt) ↔ (provided header form_token ≡ s.csrf)
unfolding check_csrf
check_csrf_iff s header form_token =
    ground (arith, constant_time_eq_iff (provided header form_token) s.csrf)

leb_ℤ_iff : (a b : ℤ) → (leb_ℤ a b ≡ true) ↔ (a ≤ℤ b)
leb_ℤ_iff a b = elim (leb_ℤ-cases a b) [
  | inl (e, h) ↦ (λ _. h, λ _. e)
  | inr (e, h) ↦ (λ x. absurd (ground arith), λ x. absurd (omega int_laws))
]

and_iff : (a b : Bool) → ((a && b) ≡ true) ↔ ((a ≡ true) × (b ≡ true))
and_iff a b = ground arith

shifted :
    (t now age : ℤ)
    → ((now -ℤ t) ≤ℤ (age +ℤ clock_skew_secs)) ↔ (now ≤ℤ (t +ℤ age) +ℤ clock_skew_secs)
shifted t now age = (λ h. omega int_laws, λ h. omega int_laws)

-- The sums and the difference that are compared can be `i64`.
pub record IsBounded (t now age : ℤ) : Type 0 where
  pub later : IsI64 (now +ℤ clock_skew_secs)
  pub since : IsI64 (now -ℤ t)
  pub allowed : IsI64 (age +ℤ clock_skew_secs)

is_recent_iff :
    (t now age : ℤ)
    → IsBounded t now age
    → (is_recent t now age ≡ true)
      ↔ ((t ≤ℤ now +ℤ clock_skew_secs) × (now ≤ℤ (t +ℤ age) +ℤ clock_skew_secs))
is_recent_iff t now age b =
    rw
      (
        wrap_i64_lem (now +ℤ clock_skew_secs) b.later,
        wrap_i64_lem (now -ℤ t) b.since,
        wrap_i64_lem (age +ℤ clock_skew_secs) b.allowed,
      )
      (ground (
        arith,
        leb_ℤ_iff t (now +ℤ clock_skew_secs),
        leb_ℤ_iff (now -ℤ t) (age +ℤ clock_skew_secs),
        shifted t now age,
      ))

-- Where the seconds of the login, the age and the instant are so that what is compared fits an `i64`,
-- a session is fresh for an action that asks for a login of at most some age exactly if it knows of a
-- login that is not older, and not in the future, up to the clock skew on either side.
pub fresh_enough_iff :
    (jiff : Jiff) (s : Session) (age : SignedDuration) (now : Timestamp)
    → ((t : ℤ) → s.auth_time ≡ some t → IsBounded t (jiff.as_second now) (jiff.as_secs age))
    → (fresh_enough jiff s (some age) now ≡ true) ↔ (
        (t : ℤ) × (s.auth_time ≡ some t)
        × (t ≤ℤ jiff.as_second now +ℤ clock_skew_secs)
        × (jiff.as_second now ≤ℤ (t +ℤ jiff.as_secs age) +ℤ clock_skew_secs))
unfolding fresh_enough
fresh_enough_iff jiff s age now bounded = elim (Option-cases s.auth_time) [
  | inl e ↦ (λ h. absurd (ground arith), λ (t, h, a, b). absurd (ground arith))
  | inr (t, e) ↦
      let (to, from) = is_recent_iff t (jiff.as_second now) (jiff.as_secs age) (bounded t e) in
      (λ h. let (low, high) = to (ground arith) in (t, e, low, high), λ (u, h, a, b). ground arith)
]

not_expired_iff :
    (jiff : Jiff) (s : Session) (now : Timestamp)
    → (is_expired jiff s now ≡ false) ↔ (jiff.as_second now <ℤ s.exp)
unfolding is_expired
not_expired_iff jiff s now = elim (leb_ℤ-cases s.exp (jiff.as_second now)) [
  | inl (e, h) ↦ (λ x. absurd (ground arith), λ x. absurd (omega int_laws))
  | inr (e, h) ↦ (λ _. h, λ _. e)
]

user_of_iff :
    (jiff : Jiff) (q : Asked) (cookie : Option Session) (now : Timestamp) (s : Session)
    → (user_of jiff oidc q cookie now ≡ ok s) ↔ ((cookie ≡ some s) × (jiff.as_second now <ℤ s.exp))
unfolding user_of
user_of_iff jiff q none now s = (λ h. absurd (ground arith), λ h. absurd (ground arith))
user_of_iff jiff q (some x) now s = (
  λ h.
      let e : x ≡ s = ground arith in
      (
        ground arith,
        subst (λ y. jiff.as_second now <ℤ y.exp) e ((not_expired_iff jiff x now).0 (ground arith)),
      ),
  λ (e, h).
      let e' : s ≡ x = ground arith in
      ground
        (arith, (not_expired_iff jiff x now).1 (subst (λ y. jiff.as_second now <ℤ y.exp) e' h)),
)

-- With OpenID Connect a request is an admin's exactly if its cookie holds a session that has not
-- expired and is marked as an admin's; that session is the one the handlers see.
pub admin_of_iff :
    (jiff : Jiff) (q : Asked) (cookie : Option Session) (now : Timestamp) (s : Session)
    → (admin_of jiff oidc q cookie now ≡ ok s)
      ↔ ((cookie ≡ some s) × (jiff.as_second now <ℤ s.exp) × (s.admin ≡ true))
unfolding admin_of
admin_of_iff jiff q cookie now s = elim (Result-cases (user_of jiff oidc q cookie now)) [
  | inr (r, e) ↦ (
    λ h. absurd (ground arith),
    λ (c, l, a). absurd (ground (arith, (user_of_iff jiff q cookie now s).1 (c, l))),
  )
  | inl (x, e) ↦ (
    λ h.
        let same : x ≡ s = ground arith in
        let (c, l) = (user_of_iff jiff q cookie now s).0 (ground arith) in (c, l, ground arith),
    λ (c, l, a). ground (arith, (user_of_iff jiff q cookie now s).1 (c, l)),
  )
]
