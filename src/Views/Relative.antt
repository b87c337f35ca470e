-- ===== src/Views/Relative.antt =====
-- What the texts for distances in time say.
use you_spin_me.Prelude.{
  ◌*◌, ◌≡◌, ◌⊎◌, inl, inr, refl, arith, ◌++◌, Bytes, codes, ℤ, pos, ◌+ℤ◌, ◌-ℤ◌, ◌≤ℤ◌, ◌<ℤ◌,
  ltb_ℤ-cases, int_laws, pos_part, neg_part, negsuc, ◌+◌,
}
use you_spin_me.Time.{Timestamp, Jiff, IsJiff, second}
use you_spin_me.Duration.{humanize, abs}
use you_spin_me.Views.{relative}

abbrev pub minute : ℤ
minute = pos (60 * second)

-- The three cases, by the distance of `t` from `now`.
abbrev pub IsRelative : Jiff → Timestamp → Timestamp → Bytes → Type 0
IsRelative jiff t now text =
    ((now <ℤ t +ℤ minute) × (t <ℤ now +ℤ minute) × (text ≡ codes "now"))
    ⊎ ((now +ℤ minute ≤ℤ t) × (text ≡ codes "in " ++ humanize jiff (t -ℤ now)))
    ⊎ ((t +ℤ minute ≤ℤ now) × (text ≡ humanize jiff (t -ℤ now) ++ codes " ago"))

abs_parts : (d : ℤ) → (abs d ≡ pos_part d + neg_part d) × ((pos_part d ≡ 0) ⊎ (neg_part d ≡ 0))
abs_parts (pos n) = (omega arith, inr refl)
abs_parts (negsuc n) = (omega arith, inl refl)

near : (t now : ℤ) → pos (abs (t -ℤ now)) <ℤ minute → (now <ℤ t +ℤ minute) × (t <ℤ now +ℤ minute)
near t now h = let parts = abs_parts (t -ℤ now) in (omega int_laws, omega int_laws)

ahead : (t now : ℤ) → minute ≤ℤ pos (abs (t -ℤ now)) → pos 0 <ℤ (t -ℤ now) → now +ℤ minute ≤ℤ t
ahead t now h k = let parts = abs_parts (t -ℤ now) in omega int_laws

behind : (t now : ℤ) → minute ≤ℤ pos (abs (t -ℤ now)) → (t -ℤ now) ≤ℤ pos 0 → t +ℤ minute ≤ℤ now
behind t now h k = let parts = abs_parts (t -ℤ now) in omega int_laws

-- A text says "now" within a minute of the instant; else it gives the distance, humanized, and
-- whether it lies ahead or behind.
pub relative-IsRelative :
    (jiff : Jiff) → IsJiff jiff → (t now : Timestamp) → IsRelative jiff t now (relative jiff t now)
unfolding relative
relative-IsRelative jiff laws t now =
    rw (laws.duration_since_lem t now, laws.from_secs_lem (pos 60))
      (elim (ltb_ℤ-cases (pos (abs (t -ℤ now))) minute) [
        | inl (b, h) ↦ let (low, high) = near t now h in inl (low, high, rw b refl)
        | inr (b, h) ↦ elim (ltb_ℤ-cases (pos 0) (t -ℤ now)) [
          | inl (c, k) ↦ inr (inl (ahead t now h k, rw (b, c) refl))
          | inr (c, k) ↦ inr (inr (behind t now h k, rw (b, c) refl))
        ]
      ])
