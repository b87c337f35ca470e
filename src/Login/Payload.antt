-- ===== src/Login/Payload.antt =====
-- The claims of an ID token (src/web/auth.rs): their JSON, and `claim_contains`.
use you_spin_me.Prelude.{
  Bool, false, ◌||◌, Option, none, some, List, [], ◌∷◌, if◌then◌else◌, and_then, Bytes, bytes_eq,
  split,
}

-- `serde_json::Value`, as far as claims need it.
mutual
  pub data Json : Type 0 where
    text : Bytes → Json
    array : Items → Json
    object : Fields → Json
    -- null, a number or a Boolean
    plain : Json

  pub data Items : Type 0 where
    no_items : Items
    item : Json → Items → Items

  pub data Fields : Type 0 where
    no_fields : Fields
    field : Bytes → Json → Fields → Fields

-- `Value::get` of a text: the field of an object.
abbrev pub get_field : Bytes → Fields → Option Json
get_field name no_fields = none
get_field name (field k v more) = if bytes_eq k name then some v else get_field name more

abbrev pub get : Bytes → Json → Option Json
get name (object o) = get_field name o
get name (text s) = none
get name (array items) = none
get name plain = none

-- The loop over the parts of a path.
abbrev pub walk : List Bytes → Json → Option Json
walk [] current = some current
walk (p ∷ ps) current = and_then (get p current) (λ v. walk ps v)

abbrev pub is_text : Bytes → Json → Bool
is_text value (text s) = bytes_eq s value
is_text value (array items) = false
is_text value (object o) = false
is_text value plain = false

abbrev pub any_text : Bytes → Items → Bool
any_text value no_items = false
any_text value (item j more) = is_text value j || any_text value more

abbrev pub holds_value : Bytes → Json → Bool
holds_value value (text s) = bytes_eq s value
holds_value value (array items) = any_text value items
holds_value value (object o) = false
holds_value value plain = false

unfoldable pub claim_contains : Json → Bytes → Bytes → Bool
claim_contains claims path value = elim (walk (split b'.' path) claims) [
  | none ↦ false
  | some v ↦ holds_value value v
]
