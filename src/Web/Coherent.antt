-- ===== src/Web/Coherent.antt =====
-- The statuses of the keys stay coherent: the whole program over the in-memory repository, for any
-- sequence of requests.
use you_spin_me.Prelude.{List, none}
use you_spin_me.Repo.Memory.{MemoryRepository}
use you_spin_me.Rotation.Coherent.{IsCoherent, apply_rotation-IsCoherent}
use you_spin_me.Rotator.{World}
use you_spin_me.Rotator.Reachable.{IsSound, record_outcomes-IsCoherent}
use you_spin_me.Web.{Site}
use you_spin_me.Web.Entries.{Served, after}
use you_spin_me.Web.Statuses.{KeptByBoth, serve-Every}

both-IsCoherent : KeptByBoth IsCoherent
both-IsCoherent = record {
  records = λ at by expires_at s _. apply_rotation-IsCoherent s at by _ expires_at none;
  rotates = record_outcomes-IsCoherent;
}

-- Whatever requests are served over the in-memory repository, every status stays coherent if all
-- were at the start: no history exceeds ten entries, its newest entry is the last rotation, and the effective expiry is the one
-- of that rotation and of the source that the status names.
pub serve-IsSound :
    {T W : Type 0} (site : Site T MemoryRepository W) (w0 : World MemoryRepository W)
    (past : List Served)
    → IsSound w0.repo
    → IsSound (after site w0 past).repo
serve-IsSound site w0 past h = serve-Every site IsCoherent both-IsCoherent w0 past h
