-- ===== src/Glob/Semantics.antt =====
-- What a glob matches, said of the texts alone, and that `glob_match` decides it.
use you_spin_me.Prelude.{
  ℕ, suc, ◌≡◌, ◌≢◌, ◌↔◌, ◌⊎◌, inl, inr, refl, sym, ap, split_last, split_last-append,
  split_last-eq-some, ◌∙◌, subst, not_lacking, arith, Bool, true, false, none, some, Option-cases,
  Bool-cases, List, [], ◌∷◌, ◌++◌, Bytes, bytes_eq, bytes_eq_iff, bytes_ne, starts_with, split,
  Lacks, find, find-eq-some, find-eq-none, first_cut, take, drop,
}
use you_spin_me.Glob.{
  plus, strip_star, cut_slash, starts_segment, match_prefix, match_segment, match_segments,
  glob_match,
}

-- '+' stands for one segment that is not empty, any other segment for itself.
abbrev pub SegmentMatches : Bytes → Bytes → Type 0
SegmentMatches seg current = ((seg ≡ plus) × (current ≢ [])) ⊎ ((seg ≢ plus) × (current ≡ seg))

-- What a last segment with '*' behind it stands for: any text that begins with it, and for '+' any
-- text that begins with a segment that is not empty.
abbrev pub PrefixMatches : Bytes → Bytes → Type 0
PrefixMatches seg s =
    ((seg ≡ plus) × ((c : ℕ) × (t : Bytes) × (s ≡ c ∷ t) × (c ≢ b'/')))
    ⊎ ((seg ≢ plus) × ((t : Bytes) × (s ≡ seg ++ t)))

abbrev pub SegmentsMatch : Bool → List Bytes → Bytes → Type 0
SegmentsMatch prefix [] s = ⊥
SegmentsMatch true (seg ∷ []) s = PrefixMatches seg s
SegmentsMatch false (seg ∷ []) s = SegmentMatches seg s × Lacks b'/' s
SegmentsMatch prefix (seg ∷ next ∷ more) s =
    (current : Bytes) × (rest : Bytes) × (s ≡ current ++ b'/' ∷ rest)
    × Lacks b'/' current
    × SegmentMatches seg current
    × SegmentsMatch prefix (next ∷ more) rest

-- `stem` is the pattern without the '*' at its end.
abbrev pub IsStem : Bytes → Bytes → Type 0
IsStem pattern stem = pattern ≡ stem ++ b'*' ∷ []

-- With a '*' at its end, a pattern stands for what begins as its stem says; without one, for what
-- is as it says itself.
abbrev pub GlobMatches : Bytes → Bytes → Type 0
GlobMatches pattern path =
    ((stem : Bytes) × IsStem pattern stem × SegmentsMatch true (split b'/' stem) path)
    ⊎ ((¬ ((stem : Bytes) × IsStem pattern stem)) × SegmentsMatch false (split b'/' pattern) path)

starts_with_iff : (s p : Bytes) → (starts_with s p ≡ true) ↔ ((t : Bytes) × (s ≡ p ++ t))
unfolding starts_with
starts_with_iff s [] = (λ h. (s, refl), λ h. refl)
starts_with_iff [] (p ∷ ps) = (λ h. absurd (ground arith), λ (t, h). absurd (ground arith))
starts_with_iff (c ∷ s) (p ∷ ps) =
    let (to, from) = starts_with_iff s ps in
    (
      λ h. let (t, e) = to (ground arith) in (t, ground arith),
      λ (t, h). ground (arith, from (t, ground arith)),
    )

segment_iff :
    (seg current : Bytes) → (match_segment seg current ≡ true) ↔ SegmentMatches seg current
unfolding match_segment
segment_iff seg [] = ground (arith, bytes_eq_iff seg plus, bytes_eq_iff [] seg)
segment_iff seg (c ∷ s) = ground (arith, bytes_eq_iff seg plus, bytes_eq_iff (c ∷ s) seg)

starts_segment_iff :
    (s : Bytes) → (starts_segment s ≡ true) ↔ ((c : ℕ) × (t : Bytes) × (s ≡ c ∷ t) × (c ≢ b'/'))
unfolding starts_segment find
starts_segment_iff [] = (λ h. absurd (ground arith), λ (c, t, e, h). absurd (ground arith))
starts_segment_iff (c ∷ s) = (λ h. (c, s, refl, ground arith), λ (d, t, e, h). ground arith)

prefix_iff : (seg s : Bytes) → (match_prefix seg s ≡ true) ↔ PrefixMatches seg s
unfolding match_prefix
prefix_iff seg s = elim (Bool-cases (bytes_eq seg plus)) [
  | inl e ↦
      let same = (bytes_eq_iff seg plus).0 e in
      rw e (
        λ h. inl (same, (starts_segment_iff s).0 h),
        λ m. elim m [ inl (_, x) ↦ (starts_segment_iff s).1 x | inr (n, _) ↦ absurd (n same) ],
      )
  | inr e ↦ rw e (
    λ h. inr (bytes_ne seg plus e, (starts_with_iff s seg).0 h),
    λ m. elim m [
      | inl (same, _) ↦ absurd (bytes_ne seg plus e same)
      | inr (_, x) ↦ (starts_with_iff s seg).1 x
    ],
  )
]

cut_slash-cases :
    (s : Bytes)
    → ((cut_slash s ≡ (s, none)) × Lacks b'/' s)
      ⊎ ((current : Bytes) × (rest : Bytes) × (cut_slash s ≡ (current, some rest))
          × (s ≡ current ++ b'/' ∷ rest)
          × Lacks b'/' current)
unfolding cut_slash
cut_slash-cases s = elim (Option-cases (find b'/' s)) [
  | inl e ↦ inl (rw (e, cut_slash), find-eq-none b'/' s e)
  | inr (i, e) ↦
      let (shape, lacks) = find-eq-some b'/' s i e in
      inr (take i s, drop (suc i) s, rw (e, cut_slash), shape, lacks)
]

match_segments_sound :
    (prefix : Bool) (segs : List Bytes) (s : Bytes)
    → match_segments prefix segs s ≡ true
    → SegmentsMatch prefix segs s
unfolding match_segments
match_segments_sound prefix [] s h = absurd (ground arith)
match_segments_sound true (seg ∷ []) s h = (prefix_iff seg s).0 h
match_segments_sound false (seg ∷ []) s h = elim (cut_slash-cases s) [
  | inl (e, lacks) ↦ ((segment_iff seg s).0 (ground arith), lacks)
  | inr (current, rest, e, shape, lacks) ↦ absurd (ground arith)
]
match_segments_sound prefix (seg ∷ next ∷ more) s h = elim (cut_slash-cases s) [
  | inl (e, lacks) ↦ absurd (ground arith)
  | inr (current, rest, e, shape, lacks) ↦ (
    current,
    rest,
    shape,
    lacks,
    (segment_iff seg current).0 (ground arith),
    match_segments_sound prefix (next ∷ more) rest (ground arith),
  )
]

match_segments_complete :
    (prefix : Bool) (segs : List Bytes) (s : Bytes)
    → SegmentsMatch prefix segs s
    → match_segments prefix segs s ≡ true
unfolding match_segments
match_segments_complete prefix [] s h = elim h [ ]
match_segments_complete true (seg ∷ []) s h = (prefix_iff seg s).1 h
match_segments_complete false (seg ∷ []) s (h, lacks) = elim (cut_slash-cases s) [
  | inl (e, _) ↦ ground (arith, (segment_iff seg s).1 h)
  | inr (current, rest, e, shape, _) ↦
      absurd (not_lacking b'/' current rest (subst (Lacks b'/') shape lacks))
]
match_segments_complete prefix (seg ∷ next ∷ more) s (current, rest, shape, lacks, h, k) =
    elim (cut_slash-cases s) [
      | inl (e, none_there) ↦
          absurd (not_lacking b'/' current rest (subst (Lacks b'/') shape none_there))
      | inr (current', rest', e, shape', lacks') ↦
          let (same, same') =
            first_cut b'/' current' current rest' rest lacks' lacks (sym shape' ∙ shape) in
          ground (
            arith,
            (segment_iff seg current).1 h,
            match_segments_complete prefix (next ∷ more) rest k,
          )
    ]

strip_star-starred :
    (pattern stem : Bytes) → IsStem pattern stem → strip_star pattern ≡ (stem, true)
unfolding strip_star
strip_star-starred pattern stem h = ap strip_star h ∙ ground (arith, split_last-append stem b'*')

starred : (pattern : Bytes) → (strip_star pattern).1 ≡ true → IsStem pattern (strip_star pattern).0
unfolding strip_star
starred pattern h = elim (Option-cases (split_last pattern)) [
  | inl e ↦ absurd (ground arith)
  | inr ((init, c), e) ↦ ground (arith, split_last-eq-some pattern init c e)
]

unstarred :
    (pattern : Bytes) → (strip_star pattern).1 ≡ false → strip_star pattern ≡ (pattern, false)
unfolding strip_star
unstarred pattern h = elim (Option-cases (split_last pattern)) [
  | inl e ↦ ground arith
  | inr ((init, c), e) ↦ ground arith
]

strip_star-cases :
    (pattern : Bytes)
    → ((stem : Bytes) × IsStem pattern stem × (strip_star pattern ≡ (stem, true)))
      ⊎ ((¬ ((stem : Bytes) × IsStem pattern stem)) × (strip_star pattern ≡ (pattern, false)))
strip_star-cases pattern = elim (Bool-cases (strip_star pattern).1) [
  | inl e ↦ let h = starred pattern e in inl (_, h, strip_star-starred pattern _ h)
  | inr e ↦
      inr (
        λ (stem, h). cc (e, ap (λ x. x.1) (strip_star-starred pattern stem h)),
        unstarred pattern e,
      )
]

-- `glob_match` accepts exactly the paths that the glob stands for: '+' matches one segment that is
-- not empty, a trailing '*' any suffix, and everything else itself.
pub glob_match_iff :
    (pattern path : Bytes) → (glob_match pattern path ≡ true) ↔ GlobMatches pattern path
unfolding glob_match
glob_match_iff pattern path = elim (strip_star-cases pattern) [
  | inl (stem, h, e) ↦ rw e (
    λ m. inl (stem, h, match_segments_sound true (split b'/' stem) path m),
    λ m. elim m [
      | inl (stem', h', x) ↦
          let same : stem' ≡ stem = ap (λ s. s.0) (sym (strip_star-starred pattern stem' h') ∙ e) in
          match_segments_complete true (split b'/' stem) path
            (subst (λ s. SegmentsMatch true (split b'/' s) path) same x)
      | inr (n, x) ↦ absurd (n (stem, h))
    ],
  )
  | inr (n, e) ↦ rw e (
    λ m. inr (n, match_segments_sound false (split b'/' pattern) path m),
    λ m. elim m [
      | inl (stem, h, x) ↦ absurd (n (stem, h))
      | inr (_, x) ↦ match_segments_complete false (split b'/' pattern) path x
    ],
  )
]
