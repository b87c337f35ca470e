-- ===== src/KubeRepository/Ready.antt =====
-- The task that `KubeRepository::start` of src/k8s.rs leaves behind: it waits for the reflector's cache,
-- a second at a time, and then sets the flag that `ready` reads.
use you_spin_me.Prelude.{◌≡◌, ◌↔◌, refl, arith, Bool, true, false, List, [], ◌∷◌, ◌++◌, All}

-- How a wait ends: the cache is ready, its writer is gone, or the second is over.
pub data Wait : Type 0 where
  synced dropped elapsed : Wait

-- The task goes on, has set the flag, or has returned without.
pub data Task : Type 0 where
  waiting done given_up : Task

unfoldable pub poll : Task → Wait → Task
poll waiting synced = done
poll waiting dropped = given_up
poll waiting elapsed = waiting
poll done w = done
poll given_up w = given_up

unfoldable pub poll_all : Task → List Wait → Task
poll_all t [] = t
poll_all t (w ∷ ws) = poll_all (poll t w) ws

abbrev pub is_ready : Task → Bool
is_ready waiting = false
is_ready done = true
is_ready given_up = false

-- The first wait that did not just run out of time found the cache ready.
abbrev pub Syncs : List Wait → Type 0
Syncs ws =
    (before : List Wait) × (later : List Wait) × All (λ w. w ≡ elapsed) before
    × (ws ≡ before ++ synced ∷ later)

poll_all-done : (ws : List Wait) → is_ready (poll_all done ws) ≡ true
unfolding poll_all poll
poll_all-done [] = refl
poll_all-done (w ∷ ws) = poll_all-done ws

poll_all-given_up : (ws : List Wait) → is_ready (poll_all given_up ws) ≡ false
unfolding poll_all poll
poll_all-given_up [] = refl
poll_all-given_up (w ∷ ws) = poll_all-given_up ws

ready-Syncs : (ws : List Wait) → is_ready (poll_all waiting ws) ≡ true → Syncs ws
unfolding poll_all poll
ready-Syncs [] h = absurd (ground arith)
ready-Syncs (synced ∷ ws) h = ([], ws, tt, refl)
ready-Syncs (dropped ∷ ws) h = absurd (ground (arith, poll_all-given_up ws))
ready-Syncs (elapsed ∷ ws) h =
    let (before, later, e, is) = ready-Syncs ws h in
    (elapsed ∷ before, later, (refl, e), rw is refl)

Syncs-ready :
    (before later : List Wait)
    → All (λ w. w ≡ elapsed) before
    → is_ready (poll_all waiting (before ++ synced ∷ later)) ≡ true
unfolding poll_all poll
Syncs-ready [] later h = poll_all-done later
Syncs-ready (w ∷ before) later h = rw h.0 (Syncs-ready before later h.1)

-- The repository is ready exactly if a wait found the cache ready, and all before it had run out of
-- time; it stays so whatever comes later.
pub poll_all_iff : (ws : List Wait) → (is_ready (poll_all waiting ws) ≡ true) ↔ Syncs ws
poll_all_iff ws = (ready-Syncs ws, λ (before, later, e, is). rw is (Syncs-ready before later e))
