-- ===== src/Glob.antt =====
-- Globs for target paths, the `PathAllowList` of src/validation.rs.
pub mod Semantics
mod Examples
use you_spin_me.Prelude.{
  ℕ, suc, zero, Bool, true, false, not, ◌&&◌, Option, none, some, List, [], ◌∷◌, map, ltb, ◌==◌,
  if◌then◌else◌, is_nil, any, keep, take, drop, map_option, Bytes, codes, bytes_eq, starts_with,
  split, split_last, trim, find,
}

pub record PathAllowList : Type 0 where
  pub patterns : List Bytes

abbrev pub plus : Bytes
plus = codes "+"

-- `strip_suffix('*')`: what is left, and whether there was one.
pub strip_star : Bytes → Bytes × Bool
strip_star pattern = elim (split_last pattern) [
  | none ↦ (pattern, false)
  | some (p, c) ↦ if c == b'*' then (p, true) else (pattern, false)
]

-- The text before the first '/', and the text behind it if there is one.
cut_slash : Bytes → Bytes × Option Bytes
cut_slash rest = elim (find b'/' rest) [
  | some i ↦ (take i rest, some (drop (suc i) rest))
  | none ↦ (rest, none)
]

-- A text whose first segment is not empty.
starts_segment : Bytes → Bool
starts_segment rest = elim (find b'/' rest) [ some i ↦ ltb 0 i | none ↦ not (is_nil rest) ]

-- The last segment before a trailing '*'.
match_prefix : Bytes → Bytes → Bool
match_prefix seg rest = if bytes_eq seg plus then starts_segment rest else starts_with rest seg

match_segment : Bytes → Bytes → Bool
match_segment seg current = if bytes_eq seg plus then not (is_nil current) else bytes_eq current seg

-- The loop over the segments of the pattern; `prefix` says that a '*' was stripped.
match_segments : Bool → List Bytes → Bytes → Bool
match_segments prefix [] rest = false
match_segments prefix (seg ∷ more) rest =
    let (current, remaining) = cut_slash rest in
    let further : Bool = elim remaining [
      | some r ↦ match_segments prefix more r
      | none ↦ is_nil more && not prefix
    ] in
    if is_nil more && prefix
    then match_prefix seg rest
    else if not (match_segment seg current)
    then false
    else further

unfoldable pub glob_match : Bytes → Bytes → Bool
unfolding strip_star cut_slash starts_segment match_prefix match_segment match_segments bytes_eq
    starts_with split split_last find
glob_match pattern path =
    let (p, prefix) = strip_star pattern in match_segments prefix (split b'/' p) path

-- `PathAllowList::new`
unfoldable pub new : List Bytes → PathAllowList
new patterns = record { patterns = keep (λ p. not (is_nil p)) (map trim patterns) }

unfoldable pub allow_all : PathAllowList
unfolding new trim
allow_all = new (codes "*" ∷ [])

unfoldable pub allows : PathAllowList → Bytes → Bool
allows allowed path = any (λ p. glob_match p path) allowed.patterns
