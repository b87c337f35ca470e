-- ===== src/Web/FormPages.antt =====
-- The pages with a form, of an admin: how their answers are related when the pages' are.
use you_spin_me.Prelude.{
  ◌≡◌, ◌⊎◌, inl, inr, sym, ◌∙◌, arith, Option, none, some, Option-cases, Result, Result-cases, ok,
  err, Bytes,
}
use mathlib.Core.Path.{subst₂}
use you_spin_me.Time.{Timestamp}
use you_spin_me.Session.{AppError, AuthRejection, Session}
use you_spin_me.Rotator.{World}
use you_spin_me.Pages.{Reply}
use you_spin_me.Web.{Site, Visit, Response}
use you_spin_me.Web.Serving.{admin, answer, reject, with_form}

module _ {T R W : Type 0} (site : Site T R W) (raw : Bytes) (asked : Timestamp) where
  module _ {F : Type 0} (w : World R W) (x : Visit) (form : Option F)
      (run : Session → Bytes → F → World R W × Result AppError Reply) where
    form-denied :
        (e : AuthRejection)
        → admin site x asked ≡ err e
        → with_form site w x raw form asked run ≡ (w, reject site e)
    form-denied e p = ground arith

    form-unnamed :
        (session : Session)
        → admin site x asked ≡ ok session
        → site.axum.decoded raw ≡ none
        → with_form site w x raw form asked run ≡ (w, site.axum.unreadable)
    form-unnamed session p q = ground arith

    form-unfilled :
        (session : Session) (name : Bytes)
        → admin site x asked ≡ ok session
        → site.axum.decoded raw ≡ some name
        → form ≡ none
        → with_form site w x raw form asked run ≡ (w, site.axum.unreadable)
    form-unfilled session name p q f = ground arith

    pub form-page :
        (session : Session) (name : Bytes) (filled : F)
        → admin site x asked ≡ ok session
        → site.axum.decoded raw ≡ some name
        → form ≡ some filled
        → with_form site w x raw form asked run
          ≡ ((run session name filled).0, answer site (run session name filled).1)
    form-page session name filled p q f = ground arith

  module _ {F : Type 0} (P : World R W × Response → World R W × Response → Type 0)
      (w w' : World R W) (x x' : Visit) (same_admin : admin site x asked ≡ admin site x' asked)
      (refused : (res : Response) → P (w, res) (w', res)) (form form' : Option F)
      (run run' : Session → Bytes → F → World R W × Result AppError Reply) where
    -- Two forms that are both unreadable, or lead to related answers.
    abbrev pub Related : Type 0
    Related =
        ((form ≡ none) × (form' ≡ none))
        ⊎ ((f : F) × (f' : F) × (form ≡ some f)
            × (form' ≡ some f')
            × ((session : Session) (name : Bytes)
                → P ((run session name f).0, answer site (run session name f).1)
                    ((run' session name f').0, answer site (run' session name f').1)))

    pub with_form-related :
        Related
        → P (with_form site w x raw form asked run) (with_form site w' x' raw form' asked run')
    with_form-related h = elim (Result-cases (admin site x asked)) [
      | inr (e, p) ↦
          subst₂ P (sym (form-denied w x form run e p))
            (sym (form-denied w' x' form' run' e (sym same_admin ∙ p))) (refused _)
      | inl (session, p) ↦
          let p' = sym same_admin ∙ p in
          elim (Option-cases (site.axum.decoded raw)) [
            | inl q ↦
                subst₂ P (sym (form-unnamed w x form run session p q))
                  (sym (form-unnamed w' x' form' run' session p' q)) (refused _)
            | inr (name, q) ↦ elim h [
              | inl (f, f') ↦
                  subst₂ P (sym (form-unfilled w x form run session name p q f))
                    (sym (form-unfilled w' x' form' run' session name p' q f')) (refused _)
              | inr (filled, filled', f, f', related) ↦
                  subst₂ P (sym (form-page w x form run session name filled p q f))
                    (sym (form-page w' x' form' run' session name filled' p' q f'))
                    (related session name)
            ]
          ]
    ]
