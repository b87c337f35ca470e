-- ===== src/OpenBao/Outcome.antt =====
-- What the exchanges of a write come to, as parts of it follow one another.
use you_spin_me.Prelude.{
  ℕ, suc, ◌+◌, ◌≤◌, ◌≡◌, ◌⊎◌, inl, inr, refl, sym, ap, ◌∙◌, arith, Bool, true, false, ◌&&◌, some,
  is_some, List, [], ◌∷◌, ◌++◌, append_assoc, length, All, All-append, length-append, Result, ok,
  err, Bytes,
}
use you_spin_me.Targets.{TargetError}
use you_spin_me.OpenBao.{Client, Request, Response, is_success}
use you_spin_me.OpenBao.Requests.{Exchange}

-- A request with a token that was answered with a success: logins have no token.
abbrev pub acknowledged : {U : Type 0} → Exchange U → Bool
acknowledged x = is_some x.0.token && (elim x.1 [ ok res ↦ is_success res.status | err e ↦ false ])

-- At most `n` exchanges more, none of them an acknowledged write.
pub record IsQuiet {U : Type 0} (n : ℕ) (before after : List (Exchange U)) : Type 0 where
  pub new : List (Exchange U)
  pub same : after ≡ new ++ before
  pub few : length new ≤ n
  pub quiet : All (λ x. acknowledged x ≡ false) new

-- A write of `body` to `url`.
abbrev pub IsWrite : {U : Type 0} → U → Bytes → Request U → Type 0
IsWrite url body req = (req.url ≡ url) × (req.body ≡ body) × ((t : Bytes) × (req.token ≡ some t))

-- After at most `n` exchanges without an acknowledged write: a result that is `ok` and one more
-- exchange that is an acknowledged write of `body` to `url`, or an error and at most one more
-- exchange that is not.
abbrev pub Outcome :
    {U E : Type 0}
    → ℕ
    → U
    → Bytes
    → List (Exchange U)
    → Client (E × List (Exchange U)) × Result TargetError (Unit {0})
    → Type 0
Outcome {U} n url body before x =
    ((req : Request U) × (res : Response) × (mid : List (Exchange U)) × (x.1 ≡ ok tt)
      × (x.0.env.1 ≡ (req, ok res) ∷ mid)
      × IsWrite url body req
      × (is_success res.status ≡ true)
      × IsQuiet n before mid)
    ⊎ ((e : TargetError) × (x.1 ≡ err e) × IsQuiet (suc n) before x.0.env.1)

module _ {U : Type 0} where
  pub IsQuiet-trans :
      (n m k : ℕ) (a b c : List (Exchange U))
      → IsQuiet n a b
      → IsQuiet m b c
      → n + m ≤ k
      → IsQuiet k a c
  IsQuiet-trans n m k a b c h h' le = record {
    new = h'.new ++ h.new;
    same = h'.same ∙ ap (λ l. h'.new ++ l) h.same ∙ sym (append_assoc h'.new h.new a);
    few = omega (arith, length-append h'.new h.new, h.few, h'.few);
    quiet = All-append (λ x. acknowledged x ≡ false) h'.new h.new h'.quiet h.quiet;
  }

  pub IsQuiet-refl : (a : List (Exchange U)) → IsQuiet 0 a a
  IsQuiet-refl a = record { new = []; same = refl; few = omega arith; quiet = tt }

  pub IsQuiet-one :
      (x : Exchange U) (a b : List (Exchange U))
      → b ≡ x ∷ a
      → acknowledged x ≡ false
      → IsQuiet 1 a b
  IsQuiet-one x a b e h = record { new = x ∷ []; same = e; few = omega arith; quiet = (h, tt) }

  pub Outcome-after :
      {E : Type 0} (n m k : ℕ) (url : U) (body : Bytes) (a b : List (Exchange U))
      (x : Client (E × List (Exchange U)) × Result TargetError (Unit {0}))
      → IsQuiet n a b
      → Outcome m url body b x
      → n + m ≤ k
      → Outcome k url body a x
  Outcome-after n m k url body a b x h (inl (req, res, mid, r, l, w, s, q)) le =
      inl (req, res, mid, r, l, w, s, IsQuiet-trans n m k a b mid h q le)
  Outcome-after n m k url body a b x h (inr (e, r, q)) le =
      inr (e, r, IsQuiet-trans n (suc m) (suc k) a b _ h q (omega arith))
