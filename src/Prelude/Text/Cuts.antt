-- ===== src/Prelude/Text/Cuts.antt =====
-- Where a separator cuts a text.
use Prim.Native.Nat.{ℕ, suc, zero}
use mathlib.Core.Path.{◌≡◌, refl, subst}
use mathlib.Core.Logic.{◌≢◌}
use mathlib.Core.Option.{Option, none, some}
use mathlib.Core.List.{[], ◌∷◌, ◌++◌}
use native.Mathlib.Omega.{arith}
use you_spin_me.Prelude.Tests.{◌==◌, if◌then◌else◌, map_option}
use you_spin_me.Prelude.Lists.{All, take, drop}
use you_spin_me.Prelude.Text.Core.{Bytes}

-- `str::find` for one ASCII character.
unfoldable pub find : ℕ → Bytes → Option ℕ
find c [] = none
find c (x ∷ s) = if x == c then some 0 else map_option suc (find c s)

abbrev pub Lacks : ℕ → Bytes → Type 0
Lacks c = All (λ x. x ≢ c)

pub not_lacking : (c : ℕ) (a b : Bytes) → ¬ Lacks c (a ++ c ∷ b)
not_lacking c [] b h = h.0 refl
not_lacking c (x ∷ a) b h = not_lacking c a b h.1

-- The first separator is in one place only, and so is the last.
pub first_cut :
    (c : ℕ) (a a' b b' : Bytes)
    → Lacks c a
    → Lacks c a'
    → a ++ c ∷ b ≡ a' ++ c ∷ b'
    → (a ≡ a') × (b ≡ b')
first_cut c [] [] b b' h k e = (refl, ground arith)
first_cut c [] (x ∷ a') b b' h k e = absurd (k.0 (ground arith))
first_cut c (x ∷ a) [] b b' h k e = absurd (h.0 (ground arith))
first_cut c (x ∷ a) (y ∷ a') b b' h k e =
    let (l, r) = first_cut c a a' b b' h.1 k.1 (ground arith) in (ground arith, r)

pub last_cut :
    (c : ℕ) (a a' b b' : Bytes)
    → Lacks c b
    → Lacks c b'
    → a ++ c ∷ b ≡ a' ++ c ∷ b'
    → (a ≡ a') × (b ≡ b')
last_cut c [] [] b b' h k e = (refl, ground arith)
last_cut c [] (x ∷ a') b b' h k e =
    absurd (not_lacking c a' b' (subst (Lacks c) {x = b} (ground arith) h))
last_cut c (x ∷ a) [] b b' h k e =
    absurd (not_lacking c a b (subst (Lacks c) {x = b'} (ground arith) k))
last_cut c (x ∷ a) (y ∷ a') b b' h k e =
    let (l, r) = last_cut c a a' b b' h k (ground arith) in (ground arith, r)

pub find-eq-some :
    (c : ℕ) (s : Bytes) (i : ℕ)
    → find c s ≡ some i
    → (s ≡ take i s ++ c ∷ drop (suc i) s) × Lacks c (take i s)
unfolding find
find-eq-some c [] i h = absurd (ground arith)
find-eq-some c (x ∷ s) zero h = ground arith
find-eq-some c (x ∷ s) (suc i) h =
    let (e, l) = find-eq-some c s i (ground arith) in (ground arith, (ground arith, l))

pub find-eq-none : (c : ℕ) (s : Bytes) → find c s ≡ none → Lacks c s
unfolding find
find-eq-none c [] h = tt
find-eq-none c (x ∷ s) h = ground (arith, find-eq-none c s)

pub find_of_Lacks : (c : ℕ) (s : Bytes) → Lacks c s → find c s ≡ none
unfolding find
find_of_Lacks c [] h = refl
find_of_Lacks c (x ∷ s) h = ground (arith, find_of_Lacks c s h.1)
