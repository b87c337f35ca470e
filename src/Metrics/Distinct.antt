-- ===== src/Metrics/Distinct.antt =====
-- No two samples of a family have the same labels.
use you_spin_me.Prelude.{
  ◌≡◌, ◌≢◌, sym, subst, true, Option, none, some, Option-cases, inl, inr, List, [], ◌∷◌, ◌++◌, map,
  All, All-append, Bytes, codes,
}
use you_spin_me.Time.{Jiff}
use you_spin_me.Crd.{ApiKey, ApiKeyStatus, TargetStatus, key_name}
use you_spin_me.Repo.{Repository}
use you_spin_me.Repo.Memory.{bytes_lt}
use you_spin_me.Repo.Memory.Order.{bytes_lt_irrefl}
use you_spin_me.Repo.Memory.Listing.{IsSorted}
use you_spin_me.Schedule.{Thresholds}
use you_spin_me.Metrics.Gauges.{
  Labels, Floats, Row, key_labels, row_of, samples_of, info, info_labels, target_samples,
  healthy_samples, collect,
}

-- Of any two, the labels differ.
abbrev pub IsDistinct : {V : Type 0} → List (Labels × V) → Type 0
IsDistinct [] = Unit
IsDistinct (s ∷ ss) = All (λ m. s.0 ≢ m.0) ss × IsDistinct ss

abbrev pub HasDistinct : List TargetStatus → Type 0
HasDistinct [] = Unit
HasDistinct (t ∷ ts) = All (λ u. t.reference ≢ u.reference) ts × HasDistinct ts

-- The targets of a key's status have different references.
abbrev pub HasTargets : Option ApiKeyStatus → Type 0
HasTargets none = Unit
HasTargets (some s) = HasDistinct s.targets

-- The value of the second label, which is the key's name.
abbrev name_in : Labels → Bytes
name_in [] = []
name_in (a ∷ []) = []
name_in (a ∷ b ∷ ls) = b.1

differ : (l m : Labels) → bytes_lt (name_in l) (name_in m) ≡ true → l ≢ m
differ l m h e =
    let same : bytes_lt (name_in l) (name_in l) ≡ true =
      subst (λ x. bytes_lt (name_in l) (name_in x) ≡ true) (sym e) h in
    absurd (cc (bytes_lt_irrefl (name_in l)))

module _ {V : Type 0} where
  abbrev IsAfter : Bytes → List (Labels × V) → Type 0
  IsAfter n = All (λ s. bytes_lt n (name_in s.0) ≡ true)

  differ-All :
      (l : Labels) (ss : List (Labels × V)) → IsAfter (name_in l) ss → All (λ m. l ≢ m.0) ss
  differ-All l [] h = tt
  differ-All l (s ∷ ss) h = (differ l s.0 h.0, differ-All l ss h.1)

  IsDistinct-append :
      (xs ys : List (Labels × V))
      → IsDistinct xs
      → IsDistinct ys
      → All (λ x. All (λ m. x.0 ≢ m.0) ys) xs
      → IsDistinct (xs ++ ys)
  IsDistinct-append [] ys h k l = k
  IsDistinct-append (x ∷ xs) ys h k l =
      (All-append (λ m. x.0 ≢ m.0) xs ys h.0 l.0, IsDistinct-append xs ys h.1 k l.1)

module _ {F : Type 0} (floats : Floats F) (jiff : Jiff) (thresholds : Thresholds) where
  abbrev rows : List ApiKey → List Row
  rows = map (row_of jiff thresholds)

  abbrev IsBefore : Bytes → List ApiKey → Type 0
  IsBefore n = All (λ k. bytes_lt n (key_name k) ≡ true)

  module _ (value : Row → Option F) where
    samples_of-IsAfter :
        (n : Bytes) (ks : List ApiKey)
        → IsBefore n ks
        → IsAfter n (samples_of floats (rows ks) value)
    unfolding samples_of
    samples_of-IsAfter n [] h = tt
    samples_of-IsAfter n (k ∷ ks) h = elim (Option-cases (value (row_of jiff thresholds k))) [
      | inl e ↦ rw e (samples_of-IsAfter n ks h.1)
      | inr (v, e) ↦ rw e (h.0, samples_of-IsAfter n ks h.1)
    ]

    samples_of-IsDistinct :
        (ks : List ApiKey) → IsSorted ks → IsDistinct (samples_of floats (rows ks) value)
    unfolding samples_of
    samples_of-IsDistinct [] h = tt
    samples_of-IsDistinct (k ∷ ks) h = elim (Option-cases (value (row_of jiff thresholds k))) [
      | inl e ↦ rw e (samples_of-IsDistinct ks h.1)
      | inr (v, e) ↦ rw e (
        differ-All (key_labels k) (samples_of floats (rows ks) value)
            (samples_of-IsAfter (key_name k) ks h.0),
        samples_of-IsDistinct ks h.1,
      )
    ]

  abbrev infos : List ApiKey → List (Labels × Option F)
  infos ks = (info floats (rows ks)).samples

  infos-IsAfter : (n : Bytes) (ks : List ApiKey) → IsBefore n ks → IsAfter n (infos ks)
  infos-IsAfter n [] h = tt
  infos-IsAfter n (k ∷ ks) h = (h.0, infos-IsAfter n ks h.1)

  infos-IsDistinct : (ks : List ApiKey) → IsSorted ks → IsDistinct (infos ks)
  infos-IsDistinct [] h = tt
  infos-IsDistinct (k ∷ ks) h = (
    differ-All (info_labels floats (row_of jiff thresholds k)) (infos ks)
        (infos-IsAfter (key_name k) ks h.0),
    infos-IsDistinct ks h.1,
  )

  abbrev of_targets : ApiKey → List TargetStatus → List (Labels × Option F)
  of_targets k ts = target_samples floats (key_labels k) ts

  of_targets-IsAfter :
      (n : Bytes) (k : ApiKey) (ts : List TargetStatus)
      → bytes_lt n (key_name k) ≡ true
      → IsAfter n (of_targets k ts)
  of_targets-IsAfter n k [] h = tt
  of_targets-IsAfter n k (t ∷ ts) h = (h, of_targets-IsAfter n k ts h)

  of_targets-differ :
      (k : ApiKey) (ts : List TargetStatus) (ss : List (Labels × Option F))
      → IsAfter (key_name k) ss
      → All (λ x. All (λ m. x.0 ≢ m.0) ss) (of_targets k ts)
  of_targets-differ k [] ss h = tt
  of_targets-differ k (t ∷ ts) ss h = (
    differ-All (key_labels k ++ (codes "target", t.reference) ∷ []) ss h,
    of_targets-differ k ts ss h,
  )

  other_target :
      (k : ApiKey) (t : TargetStatus) (ts : List TargetStatus)
      → All (λ u. t.reference ≢ u.reference) ts
      → All (λ m. key_labels k ++ (codes "target", t.reference) ∷ [] ≢ m.0) (of_targets k ts)
  other_target k t [] h = tt
  other_target k t (u ∷ ts) h = (λ e. h.0 (cc e), other_target k t ts h.1)

  of_targets-IsDistinct :
      (k : ApiKey) (ts : List TargetStatus) → HasDistinct ts → IsDistinct (of_targets k ts)
  of_targets-IsDistinct k [] h = tt
  of_targets-IsDistinct k (t ∷ ts) h = (other_target k t ts h.0, of_targets-IsDistinct k ts h.1)

  healthy_samples-IsAfter :
      (n : Bytes) (ks : List ApiKey) → IsBefore n ks → IsAfter n (healthy_samples floats (rows ks))
  unfolding healthy_samples
  healthy_samples-IsAfter n [] h = tt
  healthy_samples-IsAfter n (k ∷ ks) h = elim (Option-cases k.status) [
    | inl e ↦ rw e (healthy_samples-IsAfter n ks h.1)
    | inr (s, e) ↦ rw e (
        All-append _ (of_targets k s.targets) _ (of_targets-IsAfter n k s.targets h.0)
          (healthy_samples-IsAfter n ks h.1))
  ]

  healthy_samples-IsDistinct :
      (ks : List ApiKey)
      → IsSorted ks
      → All (λ k. HasTargets k.status) ks
      → IsDistinct (healthy_samples floats (rows ks))
  unfolding healthy_samples
  healthy_samples-IsDistinct [] h t = tt
  healthy_samples-IsDistinct (k ∷ ks) h t = elim (Option-cases k.status) [
    | inl e ↦ rw e (healthy_samples-IsDistinct ks h.1 t.1)
    | inr (s, e) ↦ rw e (
        IsDistinct-append (of_targets k s.targets) _
          (of_targets-IsDistinct k s.targets (subst HasTargets e t.0))
          (healthy_samples-IsDistinct ks h.1 t.1)
          (of_targets-differ k s.targets _ (healthy_samples-IsAfter (key_name k) ks h.0)))
  ]

  -- If the repository lists keys by strictly ascending names, and no status has two targets of one
  -- reference, then in none of the families do two samples have the same labels.
  pub collect-IsDistinct :
      {R : Type 0} (repository : Repository R) (r : R)
      → IsSorted (repository.list r)
      → All (λ k. HasTargets k.status) (repository.list r)
      → All (λ f. IsDistinct f.samples) (collect floats jiff repository r thresholds)
  unfolding collect
  collect-IsDistinct repository r h t =
      let ks = repository.list r in
      let gauge = λ (value : Row → Option F). samples_of-IsDistinct value ks h in
      (
        infos-IsDistinct ks h,
        (
          gauge _,
          (
            gauge _,
            (
              gauge _,
              (gauge _, (gauge _, (gauge _, (gauge _, (healthy_samples-IsDistinct ks h t, tt))))),
            ),
          ),
        ),
      )
