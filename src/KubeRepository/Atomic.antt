-- ===== src/KubeRepository/Atomic.antt =====
-- A status update is one atomic step among those of the other clients.
use you_spin_me.Prelude.{
  ℕ, ◌≡◌, ◌≢◌, ◌⊎◌, inl, inr, refl, sym, subst, ◌∙◌, none, some, Result, ok, err, Bytes, unwrap_or,
}
use you_spin_me.Crd.{ApiKey, ApiKeyStatus, empty_status}
use you_spin_me.Repo.{RepoError, not_found, conflict, kube}
use you_spin_me.KubeRepository.{ApiServer, with_status, update_status}
use you_spin_me.KubeRepository.ServerLaws.{View, Seen, Replaced, IsOptimistic}
use you_spin_me.KubeRepository.Updates.{
  Runs, Conflicts, Ends, no_conflict, conflicts, saved, not_saved, missing, not_read,
  update_status-Runs,
}

module _ {S : Type 0} {server : ApiServer S} (view : View S) (laws : IsOptimistic server view)
    (name : Bytes) (mutate : ApiKeyStatus → ApiKeyStatus) where
  -- At one moment the mutation is applied to the status that is there then.
  abbrev pub Applied : S → S → ApiKey → Type 0
  Applied s t updated =
      (before : S) × (after : S) × (current : ApiKey) × view.Others s before
      × (view.stored before name ≡ some current)
      × (view.stored after name ≡ some updated)
      × (updated.status ≡ some (mutate (unwrap_or current.status empty_status)))
      × (updated.spec ≡ current.spec)
      × ((other : Bytes) → other ≢ name → view.stored after other ≡ view.stored before other)
      × view.Others after t

  abbrev pub Atomic : S → S × Result RepoError ApiKey → Type 0
  Atomic s (t, ok updated) = Applied s t updated
  Atomic s (t, err conflict) = view.Others s t
  Atomic s (t, err (not_found n)) = (n ≡ name) × Seen view s t name none
  Atomic s (t, err (kube shown)) = view.Others s t ⊎ ((updated : ApiKey) × Applied s t updated)

  trans : {s t u : S} → view.Others s t → view.Others t u → view.Others s u
  trans p q = laws.others_trans _ _ _ p q

  -- The replaced object is the one that was read.
  Replaced-Applied :
      {s r t : S} {obj updated : ApiKey}
      → Seen view s r name (some obj)
      → Replaced view r t name (with_status mutate obj) updated
      → Applied s t updated
  Replaced-Applied {obj = obj} (m, o, seen, o')
        (before, after, current, b, held, fits, kept, status, spec, rest, a) =
      let (v, version) = laws.versioned m name obj seen in
      let same : obj ≡ current =
        laws.versions m before name obj current (trans o' b) seen held
          (version ∙ sym (fits v version)) in
      (
        before,
        after,
        current,
        trans o (trans o' b),
        held,
        kept,
        status ∙ (λ i. some (mutate (unwrap_or (same i).status empty_status))),
        spec,
        rest,
        a,
      )

  Conflicts-Others : {n : ℕ} {s t : S} → Conflicts server name mutate n s t → view.Others s t
  Conflicts-Others no_conflict = laws.others_refl _
  Conflicts-Others (conflicts {s = s} {r = r} {t = t} {obj = obj} {e = e} read tried refused more) =
      let (m, o, seen, o') = laws.get_ok s r name obj read in
      trans o (
        trans o' (
          trans (laws.replace_conflict r t name (with_status mutate obj) e tried refused)
            (Conflicts-Others more)))

  Ends-Atomic : {s : S} {x : S × Result RepoError ApiKey} → Ends server name mutate s x → Atomic s x
  Ends-Atomic (saved {s = s} {r = r} {t = t} {obj = obj} {updated = updated} read tried) =
      Replaced-Applied (laws.get_ok s r name obj read)
        (laws.replace_ok r t name (with_status mutate obj) updated tried)
  Ends-Atomic (not_saved {s = s} {r = r} {t = t} {obj = obj} {e = e} read tried _) =
      let seen = laws.get_ok s r name obj read in
      elim (laws.replace_err r t name (with_status mutate obj) e tried) [
        | inl o ↦ inl (trans seen.1 (trans seen.3 o))
        | inr (updated, w) ↦ inr (updated, Replaced-Applied seen w)
      ]
  Ends-Atomic (missing {s = s} {r = r} {e = e} read b) = (refl, laws.get_missing s r name e read b)
  Ends-Atomic (not_read {s = s} {r = r} {e = e} read _) = inl (laws.get_err s r name e read)

  later-Applied :
      {s t u : S} {updated : ApiKey} → view.Others s t → Applied t u updated → Applied s u updated
  later-Applied o (before, after, current, b, held, kept, status, spec, rest, a) =
      (before, after, current, trans o b, held, kept, status, spec, rest, a)

  -- What the other clients did before is the others' doing too.
  later-Atomic :
      {s t : S} (x : S × Result RepoError ApiKey) → view.Others s t → Atomic t x → Atomic s x
  later-Atomic (u, ok updated) o b = later-Applied o b
  later-Atomic (u, err conflict) o b = trans o b
  later-Atomic (u, err (not_found n)) o (named, seen) =
      (named, (seen.0, trans o seen.1, seen.2, seen.3))
  later-Atomic (u, err (kube shown)) o (inl b) = inl (trans o b)
  later-Atomic (u, err (kube shown)) o (inr (updated, b)) = inr (updated, later-Applied o b)

  Runs-Atomic :
      {limit : ℕ} {s : S} (x : S × Result RepoError ApiKey)
      → Runs server name mutate limit s x
      → Atomic s x
  Runs-Atomic {s = s} x (n, t, c, inl (_, e)) = subst (Atomic s) (sym e) (Conflicts-Others c)
  Runs-Atomic x (n, t, c, inr (_, ends)) = later-Atomic x (Conflicts-Others c) (Ends-Atomic ends)

  -- A status update is atomic among the other clients' writes, on a server that keeps its documented
  -- promises: if it returns a key, then at one moment its mutation was applied to the status that the
  -- server held then, the key is what was stored, with the spec that was there, no other key changed,
  -- and all else is the others' doing. After `Conflict` nothing was written, after `NotFound` neither,
  -- and there was a moment without the key; after any other error it was applied once or not at all.
  pub update_status-IsAtomic : (s : S) → Atomic s (update_status server s name mutate)
  update_status-IsAtomic s = Runs-Atomic _ (update_status-Runs server name mutate s)
