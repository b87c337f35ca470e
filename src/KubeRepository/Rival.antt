-- ===== src/KubeRepository/Rival.antt =====
-- Test data: an API server of one key with a rival client, who writes before a replacement.
use you_spin_me.Prelude.{
  ℕ, ◌+◌, ◌-◌, ◌<◌, ◌≡◌, ◌⊎◌, inl, inr, refl, ap, subst, sym, ◌∙◌, ◌≢◌, arith, Bool, true, false,
  Option, none, some, [], ◌∷◌, ◌==◌, if◌then◌else◌, Bool-cases, Result, ok, err, Bytes, codes,
  bytes_eq, bytes_eq_iff, pos,
}
use you_spin_me.Crd.{ApiKey, ApiKeyStatus, empty_status}
use you_spin_me.Validation.Examples.{two_targets}
use you_spin_me.KubeRepository.{ApiServer, KubeError}
use you_spin_me.KubeRepository.ServerLaws.{View, IsOptimistic, Seen, Replaced}

pub record Held : Type 0 where
  pub pending : ℕ
  pub version : ℕ
  pub status : Option ApiKeyStatus

abbrev pub held_key : ℕ → Option ApiKeyStatus → ApiKey
held_key version status = record {
  metadata = record {
    name = some (codes "bot");
    namespace = none;
    generation = none;
    resource_version = some (version ∷ []);
  };
  spec = two_targets;
  status = status;
}

abbrev refusal : Bool → KubeError
refusal missing = record {
  is_not_found = missing;
  is_conflict = if missing then false else true;
  shown = [];
}

abbrev stored : Held → Bytes → Option ApiKey
stored s name = if bytes_eq name (codes "bot") then some (held_key s.version s.status) else none

abbrev rival_status : Option ApiKeyStatus
rival_status = some (record empty_status { observed_generation = some (pos 8) })

-- The rival writes if it is to.
abbrev rival : Held → Held
rival s =
    if s.pending == 0
    then s
    else record { pending = s.pending - 1; version = s.version + 1; status = rival_status }

abbrev fits : Option Bytes → ℕ → Bool
fits none version = true
fits (some v) version = bytes_eq v (version ∷ [])

abbrev put : Held → ApiKey → Held × Result KubeError ApiKey
put s obj =
    if fits obj.metadata.resource_version s.version
    then (
      record { pending = s.pending; version = s.version + 1; status = obj.status },
      ok (held_key (s.version + 1) obj.status),
    )
    else (s, err (refusal false))

abbrev pub rivalled : ApiServer Held
rivalled = record {
  get_status = λ s name.
      if bytes_eq name (codes "bot")
      then (s, ok (held_key s.version s.status))
      else (s, err (refusal true));
  replace_status = λ s name obj.
      if bytes_eq name (codes "bot") then put (rival s) obj else (s, err (refusal true));
  patch_status = λ s name conditions generation. (s, err (refusal false));
  publish = λ s k event. (s, ok tt);
  cached = λ s. held_key s.version s.status ∷ [];
  lookup = stored;
  synced = λ s. true;
}

-- Each write of the rival raises the version.
abbrev Moved : Held → Held → Type 0
Moved s t = ((s.version ≡ t.version) × (s.status ≡ t.status)) ⊎ (s.version < t.version)

abbrev pub rivalled_view : View Held
rivalled_view = record { stored = stored; Others = Moved }

rival-Moved : (s : Held) → Moved s (rival s)
rival-Moved s = ground arith

stored_inv :
    (s : Held) (name : Bytes) (key : ApiKey)
    → stored s name ≡ some key
    → (name ≡ codes "bot") × (key ≡ held_key s.version s.status)
stored_inv s name key h = ground (arith, bytes_eq_iff name (codes "bot"))

stored_some :
    (s : Held) (name : Bytes)
    → name ≡ codes "bot"
    → stored s name ≡ some (held_key s.version s.status)
stored_some s name h = ground (arith, bytes_eq_iff name (codes "bot"))

stored_none : (s : Held) (name : Bytes) → name ≢ codes "bot" → stored s name ≡ none
stored_none s name h = ground (arith, bytes_eq_iff name (codes "bot"))

fits_some : (o : Option Bytes) (v : Bytes) (n : ℕ) → o ≡ some v → fits o n ≡ true → v ≡ n ∷ []
fits_some o v n h f = ground (arith, bytes_eq_iff v (n ∷ []))

unmoved : (s : Held) → Moved s s
unmoved s = inl (refl, refl)

module _ (s t : Held) (name : Bytes) where
  get_ok :
      (key : ApiKey)
      → rivalled.get_status s name ≡ (t, ok key)
      → Seen rivalled_view s t name (some key)
  get_ok key h =
      let (a, b) : (s ≡ t) × (stored s name ≡ some key) = ground arith in
      (s, unmoved s, b, subst (Moved s) a (unmoved s))

  get_missing :
      (e : KubeError) → rivalled.get_status s name ≡ (t, err e) → Seen rivalled_view s t name none
  get_missing e h =
      let (a, b) : (s ≡ t) × (stored s name ≡ none) = ground arith in
      (s, unmoved s, b, subst (Moved s) a (unmoved s))

  get_err : (e : KubeError) → rivalled.get_status s name ≡ (t, err e) → Moved s t
  get_err e h = let a : s ≡ t = ground arith in subst (Moved s) a (unmoved s)

  replace_err :
      (obj : ApiKey) (e : KubeError) → rivalled.replace_status s name obj ≡ (t, err e) → Moved s t
  replace_err obj e h = ground arith

  module _ (obj updated : ApiKey)
      (made : rivalled.replace_status s name obj ≡ (t, ok updated)) where
    replaced :
        (name ≡ codes "bot")
        × (fits obj.metadata.resource_version (rival s).version ≡ true)
        × (t ≡ record {
          pending = (rival s).pending;
          version = (rival s).version + 1;
          status = obj.status;
        })
        × (updated ≡ held_key ((rival s).version + 1) obj.status)
    replaced = elim (Bool-cases (bytes_eq name (codes "bot"))) [
      | inr b ↦ absurd (ground arith)
      | inl b ↦ elim (Bool-cases (fits obj.metadata.resource_version (rival s).version)) [
        | inr c ↦ absurd (ground arith)
        | inl c ↦ ((bytes_eq_iff name _).0 b, c, ground arith, ground arith)
      ]
    ]

    replace_ok : Replaced rivalled_view s t name obj updated
    replace_ok =
        let (named, fit, state, answer) = replaced in
        let put_state : Held = record {
          pending = (rival s).pending;
          version = (rival s).version + 1;
          status = obj.status;
        } in
        (
          rival s,
          t,
          held_key (rival s).version (rival s).status,
          rival-Moved s,
          stored_some (rival s) name named,
          (λ v h. ap some (sym (fits_some _ v _ h fit))),
          ap (λ r. stored r name) state ∙ (stored_some put_state name named ∙ sym (ap some answer)),
          ap (λ (k : ApiKey). k.status) answer,
          ap (λ (k : ApiKey). k.spec) answer,
          (λ other h.
              let apart : other ≢ codes "bot" = λ e. h (e ∙ sym named) in
              stored_none t other apart ∙ sym (stored_none (rival s) other apart)),
          unmoved t,
        )

pub rivalled-IsOptimistic : IsOptimistic rivalled rivalled_view
rivalled-IsOptimistic = record {
  others_refl = unmoved;
  others_trans = λ s t u p q. ground arith;
  versioned = λ s name key h. (
    s.version ∷ [],
    ap (λ (k : ApiKey). k.metadata.resource_version) (stored_inv s name key h).1,
  );
  versions = λ s t name x y o p q e.
      let a = (stored_inv s name x p).1 in let b = (stored_inv t name y q).1 in ground arith;
  get_ok = get_ok;
  get_missing = λ s t name e h m. get_missing s t name e h;
  get_err = get_err;
  replace_ok = replace_ok;
  replace_conflict = λ s t name obj e h c. replace_err s t name obj e h;
  replace_err = λ s t name obj e h. inl (replace_err s t name obj e h);
}
