-- ===== src/OpenBao/Acknowledged.antt =====
-- The result of a write and the answers of the store.
use you_spin_me.Prelude.{
  ◌≡◌, ◌⊎◌, inl, inr, refl, sym, ap, ◌∙◌, subst, arith, ◌&&◌, Bool-cases, List, [], ◌∷◌, ok, err,
  Bytes, codes, ◌==◌,
}
use you_spin_me.Crd.{OpenBaoTarget}
use you_spin_me.Targets.{TargetError}
use you_spin_me.OpenBao.{
  Outside, OpenBao, Client, Request, Response, Method, patch, post, send, token_of, invalidate,
  create, settle, send_patch, second_pass, first_pass, write_key, url_of, is_success, is_kubernetes,
  error_from,
}
use you_spin_me.OpenBao.Requests.{
  Exchange, logged, IsLogin, with_token, send-cases, token_of-IsLogin,
}
use you_spin_me.OpenBao.Outcome.{
  IsQuiet, IsWrite, Outcome, IsQuiet-trans, IsQuiet-refl, IsQuiet-one, Outcome-after,
}

module _ {U E : Type 0} (outside : Outside U E) (self : OpenBao U) where
  login-IsQuiet :
      (s s' : E × List (Exchange U)) → IsLogin (logged outside) self s s' → IsQuiet 1 s.1 s'.1
  login-IsQuiet s s' (inl e) =
      IsQuiet-trans 0 0 1 s.1 s.1 s'.1 (IsQuiet-refl s.1)
        (subst (λ x. IsQuiet 0 s.1 x.1) (sym e) (IsQuiet-refl s.1)) (omega arith)
  login-IsQuiet s s' (inr (req, none_there, e)) =
      IsQuiet-one (req, (outside.http s.0 req).1) s.1 s'.1 (ap (λ x. x.1) e) (rw none_there refl)

  module _ (url : U) (body : Bytes) where
    send-IsQuiet :
        (c : Client (E × List (Exchange U))) (method : Method) (content_type : Bytes)
        → ((e : TargetError) × ((send (logged outside) self c method url content_type body).1
              ≡ err e)
            × IsQuiet 2 c.env.1 (send (logged outside) self c method url content_type body).0.env.1)
          ⊎ ((res : Response) × (req : Request U) × (mid : List (Exchange U)) × ((send
                  (logged outside)
                  self
                  c
                  method
                  url
                  content_type
                  body).1
                ≡ ok res)
              × ((send (logged outside) self c method url content_type body).0.env.1
                  ≡ (req, ok res) ∷ mid)
              × IsWrite url body req
              × IsQuiet 1 c.env.1 mid)
    send-IsQuiet c method content_type =
        let logins = login-IsQuiet c.env _ (token_of-IsLogin (logged outside) self c) in
        elim (send-cases (logged outside) self c method url content_type body) [
          | inl (e, r, l) ↦
              inl (e, r, rw l (IsQuiet-trans 1 0 2 _ _ _ logins (IsQuiet-refl _) (omega arith)))
          | inr (t, l, inl (e, f, a, r)) ↦ inl (
            f,
            r,
            rw l (
                IsQuiet-trans 1 1 2 _ _ _ logins (IsQuiet-one _ _ _ refl (rw a refl))
                  (omega arith)),
          )
          | inr (t, l, inr (res, a, r)) ↦ inr (
            res,
            with_token (logged outside) self method url content_type body t,
            (token_of (logged outside) self c).0.env.1,
            r,
            ap (λ x. x.1) l ∙ rw a refl,
            (refl, refl, (t, refl)),
            logins,
          )
        ]

    create-Outcome :
        (c : Client (E × List (Exchange U)))
        → Outcome 1 url body c.env.1 (create (logged outside) self c url body)
    unfolding create
    create-Outcome c = elim (send-IsQuiet c post (codes "application/json")) [
      | inl (e, r, q) ↦ inr (e, rw (r, create) refl, rw (r, create) q)
      | inr (res, req, mid, r, l, w, q) ↦ elim (Bool-cases (is_success res.status)) [
        | inl b ↦ inl (req, res, mid, rw (r, create) (rw b refl), rw (r, create) (rw b l), w, b, q)
        | inr b ↦ inr (
          error_from (logged outside) res (codes "OpenBao create"),
          rw (r, create) (rw b refl),
          rw (r, create)
              (rw b
                (IsQuiet-trans 1 1 2 _ _ _ q (IsQuiet-one _ _ _ l (ground arith)) (omega arith))),
        )
      ]
    ]

    settle-Outcome :
        (c : Client (E × List (Exchange U))) (req : Request U) (res : Response)
        (before mid : List (Exchange U))
        → IsQuiet 1 before mid
        → IsWrite url body req
        → c.env.1 ≡ (req, ok res) ∷ mid
        → Outcome 3 url body before (settle (logged outside) self c url body res)
    unfolding settle
    settle-Outcome c req res before mid q w l = elim (Bool-cases (is_success res.status)) [
      | inl b ↦ inl (
        req,
        res,
        mid,
        rw b refl,
        rw b l,
        w,
        b,
        IsQuiet-trans 1 0 3 _ _ _ q (IsQuiet-refl _) (omega arith),
      )
      | inr b ↦
          let quiet =
            IsQuiet-trans 1 1 2 _ _ _ q (IsQuiet-one _ _ _ l (ground arith)) (omega arith) in
          elim (Bool-cases (res.status == 404)) [
            | inl b' ↦
                rw (b, b')
                  (Outcome-after 2 1 3 url body before c.env.1
                    (create (logged outside) self c url body) quiet (create-Outcome c)
                    (omega arith))
            | inr b' ↦
                rw (b, b')
                  (inr (
                    error_from (logged outside) res (codes "OpenBao write"),
                    refl,
                    IsQuiet-trans 2 0 4 _ _ _ quiet (IsQuiet-refl _) (omega arith),
                  ))
          ]
    ]

    second_pass-Outcome :
        (c : Client (E × List (Exchange U)))
        → Outcome 3 url body c.env.1 (second_pass (logged outside) self c url body)
    unfolding second_pass send_patch
    second_pass-Outcome c = elim (send-IsQuiet c patch (codes "application/merge-patch+json")) [
      | inl (e, r, q) ↦ inr (
        e,
        rw (r, second_pass, send_patch) refl,
        rw (r, second_pass, send_patch)
            (IsQuiet-trans 2 0 4 _ _ _ q (IsQuiet-refl _) (omega arith)),
      )
      | inr (res, req, mid, r, l, w, q) ↦
          rw (r, second_pass, send_patch) (settle-Outcome _ req res c.env.1 mid q w l)
    ]

    first_pass-Outcome :
        (c : Client (E × List (Exchange U)))
        → Outcome 5 url body c.env.1 (first_pass (logged outside) self c url body)
    unfolding first_pass send_patch invalidate
    first_pass-Outcome c =
        let sent =
          send (logged outside) self c patch url (codes "application/merge-patch+json") body in
        elim (send-IsQuiet c patch (codes "application/merge-patch+json")) [
          | inl (e, r, q) ↦ inr (
            e,
            rw (r, first_pass, send_patch) refl,
            rw (r, first_pass, send_patch)
                (IsQuiet-trans 2 0 6 _ _ _ q (IsQuiet-refl _) (omega arith)),
          )
          | inr (res, req, mid, r, l, w, q) ↦
              elim (Bool-cases (res.status == 403 && is_kubernetes self.auth)) [
                | inl b ↦
                    let quiet =
                      IsQuiet-trans 1 1 2 _ _ _ q (IsQuiet-one _ _ _ l (ground arith))
                        (omega arith) in
                    rw (r, first_pass, send_patch)
                      (rw b (
                        Outcome-after 2 3 5 url body c.env.1 sent.0.env.1
                          (second_pass (logged outside) self
                            (invalidate (logged outside) self sent.0) url body)
                          quiet (second_pass-Outcome _) (omega arith)))
                | inr b ↦
                    rw (r, first_pass, send_patch)
                      (rw b (
                        Outcome-after 0 3 5 url body c.env.1 c.env.1
                          (settle (logged outside) self sent.0 url body res) (IsQuiet-refl _)
                          (settle-Outcome _ req res c.env.1 mid q w l) (omega arith)))
              ]
        ]

  -- A write of a value to a target, whose URL and body can be made, ends after at most six requests. It returns `ok` exactly if its last
  -- request is a write of the value to the target's URL and was answered with a success; none of the
  -- requests before it was, and where the result is an error none was at all.
  pub write_key-Outcome :
      (c : Client (E × List (Exchange U))) (t : OpenBaoTarget) (value : Bytes) (url : U)
      (body : Bytes)
      → url_of outside self (t.mount ∷ codes "data" ∷ t.path ∷ []) ≡ ok url
      → outside.write_body t.key value ≡ ok body
      → Outcome 5 url body c.env.1 (write_key (logged outside) self c t value)
  unfolding write_key url_of
  write_key-Outcome c t value url body h k = rw (h, k, write_key) (first_pass-Outcome url body c)
