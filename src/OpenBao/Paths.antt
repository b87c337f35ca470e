-- ===== src/OpenBao/Paths.antt =====
-- Where a target is written, and which path the allow-list is asked about.
use you_spin_me.Prelude.{
  ◌≡◌, Bool, List, [], ◌∷◌, ◌++◌, if◌then◌else◌, Bytes, codes, All, bytes_eq, ◌||◌, ◌≤◌,
}
use you_spin_me.OpenBao.{Outside, OpenBao}

-- A part that `push` of the `url` crate ignores.
abbrev pub is_dots : Bytes → Bool
is_dots p = bytes_eq p (codes ".") || bytes_eq p (codes "..")

-- A text without control characters, of which the crate drops tabs and line ends.
abbrev pub IsPlain : Bytes → Type 0
IsPlain = All (λ c. 32 ≤ c)

module _ {U E : Type 0} (outside : Outside U E) where
  -- The documented behaviour of `push`, where `segments` are the decoded segments of a URL's path.
  abbrev pub IsPush : (U → List Bytes) → Type 0
  IsPush segments =
      (u : U) (p : Bytes)
      → IsPlain p
      → segments (outside.push u p) ≡ (if is_dots p then segments u else segments u ++ p ∷ [])
