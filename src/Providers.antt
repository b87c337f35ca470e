-- ===== src/Providers.antt =====
-- Expiry probes (src/providers/mod.rs). A prober is the function from a provider and a key to the
-- answer that one call gets.
use you_spin_me.Prelude.{Option, none, Result, ok, Bytes}
use you_spin_me.Time.{Timestamp}
use you_spin_me.Crd.{Provider}

pub record ProbeResult : Type 0 where
  pub expires_at : Option Timestamp
  pub identity : Option Bytes

pub data ProbeError : Type 0 where
  rejected unavailable : Bytes → ProbeError

abbrev pub Answer : Type 0
Answer = Result ProbeError (Option ProbeResult)

-- `ok none` means that the provider has no probe.
abbrev pub Prober : Type 0
Prober = Provider → Bytes → Answer

unfoldable pub no_probe : Prober
no_probe provider key = ok none

unfoldable pub static_prober : Answer → Prober
static_prober answer provider key = answer
