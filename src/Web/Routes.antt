-- ===== src/Web/Routes.antt =====
-- The routes of `router` (src/web/mod.rs).
use you_spin_me.Prelude.{List, [], ◌∷◌, is_nil, if◌then◌else◌, Bytes, codes, bytes_eq, split, join}

pub data Route : Type 0 where
  at_index : Route
  at_key at_record at_rotate : Bytes → Route
  at_login at_callback at_logout : Route
  at_asset : Bytes → Route
  nowhere : Route

abbrev pub of_asset : List Bytes → Route
of_asset parts = let path = join (codes "/") parts in if is_nil path then nowhere else at_asset path

abbrev pub of_auth : Bytes → Route
of_auth a =
    if bytes_eq a (codes "login")
    then at_login
    else if bytes_eq a (codes "callback")
    then at_callback
    else if bytes_eq a (codes "logout")
    then at_logout
    else nowhere

abbrev pub of_action : Bytes → Bytes → Route
of_action name action =
    if is_nil name
    then nowhere
    else if bytes_eq action (codes "record")
    then at_record name
    else if bytes_eq action (codes "rotate")
    then at_rotate name
    else nowhere

-- By the parts of the path behind its first slash. A name is not empty.
unfoldable pub of_parts : List Bytes → Route
of_parts [] = nowhere
of_parts (a ∷ []) = if is_nil a then at_index else nowhere
of_parts (a ∷ b ∷ more) =
    if bytes_eq a (codes "assets")
    then of_asset (b ∷ more)
    else if bytes_eq a (codes "keys")
    then elim more [
      | [] ↦ if is_nil b then nowhere else at_key b
      | c ∷ [] ↦ of_action b c
      | c ∷ d ∷ rest ↦ nowhere
    ]
    else if bytes_eq a (codes "auth")
    then elim more [ [] ↦ of_auth b | c ∷ rest ↦ nowhere ]
    else nowhere

unfoldable pub route_of : Bytes → Route
route_of path = elim (split b'/' path) [
  | [] ↦ nowhere
  | first ∷ parts ↦ if is_nil first then of_parts parts else nowhere
]
