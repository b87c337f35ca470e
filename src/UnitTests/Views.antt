-- ===== src/UnitTests/Views.antt =====
-- The tests of src/web/views.rs. Dates are printed by another crate.
use you_spin_me.Prelude.{◌≡◌, refl, none, some, codes, starts_with, bytes_eq, decimal, ◌-ℤ◌}
use you_spin_me.Time.Examples.{plain}
use you_spin_me.Duration.{humanize}
use you_spin_me.Validation.Examples.{plain_crates}
use you_spin_me.Views.{Outside, safe_link, relative}
use you_spin_me.UnitTests.Fixtures.{ts}

-- Of URLs, only those with the scheme https are read, and printed as they are.
abbrev outside : Outside
outside = record { crates = plain_crates; url_text = λ u. u; to_lowercase = λ s. s }

abbrev OnlyHttpLinksAreRendered : Type 0
OnlyHttpLinksAreRendered =
    (safe_link outside (codes "https://github.com/settings/tokens")
      ≡ some (codes "https://github.com/settings/tokens"))
    × (safe_link outside (codes "javascript:alert(1)") ≡ none)
    × (safe_link outside (codes "data:text/html,x") ≡ none)
    × (safe_link outside (codes "not a url") ≡ none)

only_http_links_are_rendered : OnlyHttpLinksAreRendered
unfolding safe_link starts_with bytes_eq
only_http_links_are_rendered = (refl, refl, refl, refl)

abbrev RelativeTimes : Type 0
RelativeTimes =
    (relative plain (ts 10 7 0) (ts 9 25 0) ≡ codes "in 12d")
    × (relative plain (ts 9 22 0) (ts 9 25 0) ≡ codes "3d ago")
    × (relative plain (ts 9 25 0) (ts 9 25 0) ≡ codes "now")

relative_times : RelativeTimes
unfolding relative humanize decimal ◌-ℤ◌
relative_times = (refl, refl, refl)
