-- ===== src/KubeRepository/ServerLaws.antt =====
-- What the API server documents of its calls: resource versions and optimistic replacement. The
-- other clients of the server act at any moment.
use you_spin_me.Prelude.{◌≡◌, ◌≢◌, ◌⊎◌, true, Option, none, some, ok, err, Bytes}
use you_spin_me.Crd.{ApiKey}
use you_spin_me.KubeRepository.{ApiServer, KubeError}

-- What a state of the server holds, and what may become of it by the other clients.
pub record View (S : Type 0) : Type 1 where
  pub stored : S → Bytes → Option ApiKey
  pub Others : S → S → Type 0

module _ {S : Type 0} (view : View S) where
  -- At some moment of the call, the server held this under the name.
  abbrev pub Seen : S → S → Bytes → Option ApiKey → Type 0
  Seen s t name found =
      (moment : S) × view.Others s moment × (view.stored moment name ≡ found) × view.Others moment t

  -- An object that carries a resource version replaces only an object of that version.
  abbrev pub Fits : ApiKey → ApiKey → Type 0
  Fits obj current =
      (v : Bytes)
      → obj.metadata.resource_version ≡ some v
      → current.metadata.resource_version ≡ some v

  -- The status is written at one moment, to the object that is there, and nothing else is.
  abbrev pub Replaced : S → S → Bytes → ApiKey → ApiKey → Type 0
  Replaced s t name obj updated =
      (before : S) × (after : S) × (current : ApiKey) × view.Others s before
      × (view.stored before name ≡ some current)
      × Fits obj current
      × (view.stored after name ≡ some updated)
      × (updated.status ≡ obj.status)
      × (updated.spec ≡ current.spec)
      × ((other : Bytes) → other ≢ name → view.stored after other ≡ view.stored before other)
      × view.Others after t

pub record IsOptimistic {S : Type 0} (server : ApiServer S) (view : View S) : Type 1 where
  pub others_refl : (s : S) → view.Others s s
  pub others_trans : (s t u : S) → view.Others s t → view.Others t u → view.Others s u
  -- Every stored object has a version, and each write gives it another.
  pub versioned :
      (s : S) (name : Bytes) (key : ApiKey)
      → view.stored s name ≡ some key
      → (v : Bytes) × (key.metadata.resource_version ≡ some v)
  pub versions :
      (s t : S) (name : Bytes) (x y : ApiKey)
      → view.Others s t
      → view.stored s name ≡ some x
      → view.stored t name ≡ some y
      → x.metadata.resource_version ≡ y.metadata.resource_version
      → x ≡ y
  pub get_ok :
      (s t : S) (name : Bytes) (key : ApiKey)
      → server.get_status s name ≡ (t, ok key)
      → Seen view s t name (some key)
  pub get_missing :
      (s t : S) (name : Bytes) (e : KubeError)
      → server.get_status s name ≡ (t, err e)
      → e.is_not_found ≡ true
      → Seen view s t name none
  pub get_err :
      (s t : S) (name : Bytes) (e : KubeError)
      → server.get_status s name ≡ (t, err e)
      → view.Others s t
  pub replace_ok :
      (s t : S) (name : Bytes) (obj updated : ApiKey)
      → server.replace_status s name obj ≡ (t, ok updated)
      → Replaced view s t name obj updated
  pub replace_conflict :
      (s t : S) (name : Bytes) (obj : ApiKey) (e : KubeError)
      → server.replace_status s name obj ≡ (t, err e)
      → e.is_conflict ≡ true
      → view.Others s t
  -- The answer to a replacement may be lost when it has been made.
  pub replace_err :
      (s t : S) (name : Bytes) (obj : ApiKey) (e : KubeError)
      → server.replace_status s name obj ≡ (t, err e)
      → view.Others s t ⊎ ((updated : ApiKey) × Replaced view s t name obj updated)
