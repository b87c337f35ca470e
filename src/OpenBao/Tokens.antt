-- ===== src/OpenBao/Tokens.antt =====
-- Which token a request is sent with.
use you_spin_me.Prelude.{
  ℕ, ◌+◌, ◌<◌, ◌≡◌, ◌⊎◌, inl, inr, arith, true, Bool-cases, some, Option-cases, Result-cases, ok,
  Bytes,
}
use you_spin_me.OpenBao.{
  Outside, OpenBao, Client, CachedToken, token_margin, is_usable, login, login_and_cache, token_of,
}

module _ {U E : Type 0} (outside : Outside U E) (self : OpenBao U) where
  -- The cached token, which outlives the margin; nothing is asked.
  abbrev pub IsReused : Client E → Client E → Bytes → Type 0
  IsReused c after t =
      (cached : CachedToken) × (c.token ≡ some cached)
      × (after ≡ c)
      × (t ≡ cached.token)
      × ((e : ℕ) → cached.expires ≡ some e → outside.now c.env + token_margin < e)

  -- The token of a login, which is kept for the next request.
  abbrev pub IsFresh : Client E → Client E → Bytes → Type 0
  IsFresh c after t =
      (fresh : CachedToken) × (login outside self c.env ≡ (after.env, ok fresh))
      × (after.token ≡ some fresh)
      × (t ≡ fresh.token)

  usable-lt :
      (now e : ℕ) (t : CachedToken)
      → is_usable now t ≡ true
      → t.expires ≡ some e
      → now + token_margin < e
  usable-lt now e t h k = ground arith

  login_and_cache-IsFresh :
      (c after : Client E) (t : Bytes)
      → login_and_cache outside self c ≡ (after, ok t)
      → IsFresh c after t
  unfolding login_and_cache
  login_and_cache-IsFresh c after t h = elim (Result-cases (login outside self c.env).1) [
    | inr (e, q) ↦ absurd (ground arith)
    | inl (fresh, q) ↦ (fresh, ground arith, ground arith, ground arith)
  ]

  -- A request is sent with the cached token only if that token does not expire or expires later than
  -- thirty seconds from now; else with the token of a login made for it, which is cached.
  pub token_of-IsReused :
      (c after : Client E) (t : Bytes)
      → token_of outside self c ≡ (after, ok t)
      → IsReused c after t ⊎ IsFresh c after t
  unfolding token_of
  token_of-IsReused c after t h = elim (Option-cases c.token) [
    | inl e ↦ inr (login_and_cache-IsFresh c after t (ground arith))
    | inr (cached, e) ↦ elim (Bool-cases (is_usable (outside.now c.env) cached)) [
      | inr b ↦ inr (login_and_cache-IsFresh c after t (ground arith))
      | inl b ↦
          inl (
            cached,
            e,
            ground arith,
            ground arith,
            λ x k. usable-lt (outside.now c.env) x cached b k,
          )
    ]
  ]
