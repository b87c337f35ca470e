-- ===== src/KubeRepository/Updates.antt =====
-- A status update over the API server: its attempts and how they end.
use you_spin_me.Prelude.{
  ℕ, zero, suc, ◌<◌, ◌≡◌, ◌⊎◌, inl, inr, refl, ap, arith, true, false, Bool-cases, Result-cases,
  Result, ok, err, Bytes,
}
use you_spin_me.Crd.{ApiKey, ApiKeyStatus}
use you_spin_me.Repo.{RepoError, not_found, conflict, kube}
use you_spin_me.KubeRepository.{
  ApiServer, KubeError, with_status, attempts, update_status, max_status_attempts,
}

module _ {S : Type 0} (server : ApiServer S) (name : Bytes)
    (mutate : ApiKeyStatus → ApiKeyStatus) where
  -- So many attempts, each with a fresh read and a replacement that conflicts.
  pub data Conflicts : ℕ → S → S → Type 0 where
    no_conflict : {s : S} → Conflicts 0 s s
    conflicts :
        {n : ℕ} {s r t u : S} {obj : ApiKey} {e : KubeError}
        → server.get_status s name ≡ (r, ok obj)
        → server.replace_status r name (with_status mutate obj) ≡ (t, err e)
        → e.is_conflict ≡ true
        → Conflicts n t u
        → Conflicts (suc n) s u

  -- The attempt that ends an update: the mutated status is saved, or a call fails otherwise.
  pub data Ends : S → S × Result RepoError ApiKey → Type 0 where
    saved :
        {s r t : S} {obj updated : ApiKey}
        → server.get_status s name ≡ (r, ok obj)
        → server.replace_status r name (with_status mutate obj) ≡ (t, ok updated)
        → Ends s (t, ok updated)
    not_saved :
        {s r t : S} {obj : ApiKey} {e : KubeError}
        → server.get_status s name ≡ (r, ok obj)
        → server.replace_status r name (with_status mutate obj) ≡ (t, err e)
        → e.is_conflict ≡ false
        → Ends s (t, err (kube e.shown))
    missing :
        {s r : S} {e : KubeError}
        → server.get_status s name ≡ (r, err e)
        → e.is_not_found ≡ true
        → Ends s (r, err (not_found name))
    not_read :
        {s r : S} {e : KubeError}
        → server.get_status s name ≡ (r, err e)
        → e.is_not_found ≡ false
        → Ends s (r, err (kube e.shown))

  abbrev pub Runs : ℕ → S → S × Result RepoError ApiKey → Type 0
  Runs limit s x =
      (n : ℕ) × (t : S) × Conflicts n s t
      × (((n ≡ limit) × (x ≡ (t, err conflict))) ⊎ ((n < limit) × Ends t x))

  same_pair : {A B : Type 0} (x : A × B) (b : B) → x.1 ≡ b → x ≡ (x.0, b)
  same_pair x b h = ap (λ y. (x.0, y)) h

  attempts-Runs : (limit : ℕ) (s : S) → Runs limit s (attempts server limit s name mutate)
  unfolding attempts
  attempts-Runs zero s = (0, s, no_conflict, inl (refl, refl))
  attempts-Runs (suc limit) s = elim (Result-cases (server.get_status s name).1) [
    | inr (e, q) ↦ elim (Bool-cases e.is_not_found) [
      | inl b ↦ (
        0,
        s,
        no_conflict,
        inr (omega arith, rw (q, attempts) (rw b (missing (same_pair _ _ q) b))),
      )
      | inr b ↦ (
        0,
        s,
        no_conflict,
        inr (omega arith, rw (q, attempts) (rw b (not_read (same_pair _ _ q) b))),
      )
    ]
    | inl (obj, q) ↦
        let read = same_pair (server.get_status s name) (ok obj) q in
        let r = (server.get_status s name).0 in
        let tried = server.replace_status r name (with_status mutate obj) in
        elim (Result-cases tried.1) [
          | inl (updated, q') ↦ (
            0,
            s,
            no_conflict,
            inr (
              omega arith,
              rw (q, attempts) (rw q' (saved read (same_pair tried (ok updated) q'))),
            ),
          )
          | inr (e, q') ↦ elim (Bool-cases e.is_conflict) [
            | inr b ↦ (
              0,
              s,
              no_conflict,
              inr (
                omega arith,
                rw (q, attempts) (rw q' (rw b (not_saved read (same_pair tried (err e) q') b))),
              ),
            )
            | inl b ↦
                let (n, t, c, ends) = attempts-Runs limit tried.0 in
                (
                  suc n,
                  t,
                  conflicts read (same_pair tried (err e) q') b c,
                  rw (q, attempts)
                      (rw q' (
                        rw b (elim ends [
                          | inl (l, x) ↦ inl (ap suc l, x)
                          | inr (l, x) ↦ inr (omega arith, x)
                        ]))),
                )
          ]
        ]
  ]

  -- An update makes at most three attempts, each on a fresh read of the key, and goes on only after a
  -- conflict. It returns `Conflict` exactly after three of them; else the attempt after the last
  -- conflict ends it: the result is the key that the server saved with the mutated status, or the
  -- error of the call that failed.
  pub update_status-Runs : (s : S) → Runs max_status_attempts s (update_status server s name mutate)
  unfolding update_status
  update_status-Runs s = attempts-Runs 3 s
