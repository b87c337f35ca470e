-- ===== src/Demo/Coherent.antt =====
-- The demo starts in a state that rotations could have left.
use you_spin_me.Prelude.{
  inl, inr, refl, arith, Option-cases, Option, none, some, unwrap_or, List, [], ◌∷◌, map, All,
}
use you_spin_me.Time.{Timestamp, Jiff}
use you_spin_me.Crd.{ApiKey, empty_status, key_name}
use you_spin_me.Repo.Memory.{MemoryRepository, empty, insert, new, new_from, get, lookup}
use you_spin_me.Repo.Memory.Laws.{lookup-insert_entry}
use you_spin_me.Rotation.Coherent.{IsCoherent, empty-IsCoherent}
use you_spin_me.Rotator.Every.{Every-changed}
use you_spin_me.Rotator.Reachable.{IsSound}
use you_spin_me.Demo.{Sample, samples, status_of, key_of, sample_keys}

status_of-IsCoherent :
    (s : Sample) (at : Timestamp) (expires : Option Timestamp) → IsCoherent (status_of s at expires)
unfolding status_of
status_of-IsCoherent s at none = record {
  bounded = omega arith;
  newest = (_, [], refl, refl, refl, refl);
  sourced = (refl, refl, refl);
}
status_of-IsCoherent s at (some e) = record {
  bounded = omega arith;
  newest = (_, [], refl, refl, refl, refl);
  sourced = (e, refl, refl, refl);
}

abbrev pub HasCoherent : ApiKey → Type 0
HasCoherent key = IsCoherent (unwrap_or key.status empty_status)

key_of-HasCoherent : (jiff : Jiff) (now : Timestamp) (s : Sample) → HasCoherent (key_of jiff now s)
unfolding key_of status_of
key_of-HasCoherent jiff now s = elim (Option-cases s.rotated_days_ago) [
  | inl e ↦ rw e empty-IsCoherent
  | inr (ago, e) ↦ rw e (status_of-IsCoherent (record s { rotated_days_ago = some ago }) _ _)
]

insert-IsSound :
    (r : MemoryRepository) (key : ApiKey) → HasCoherent key → IsSound r → IsSound (insert r key)
unfolding insert get
insert-IsSound r key c h =
    Every-changed (λ _. IsCoherent) r (insert r key) (key_name key) key
      (λ other. lookup-insert_entry (key_name key) other key r.keys) c h

new_from-IsSound :
    (r : MemoryRepository) (keys : List ApiKey)
    → All HasCoherent keys
    → IsSound r
    → IsSound (new_from r keys)
unfolding new_from
new_from-IsSound r [] c h = h
new_from-IsSound r (key ∷ keys) c h =
    new_from-IsSound (insert r key) keys c.1 (insert-IsSound r key c.0 h)

empty-IsSound : IsSound empty
unfolding get lookup
empty-IsSound name key e = absurd (ground arith)

keys_of-HasCoherent :
    (jiff : Jiff) (now : Timestamp) (ss : List Sample) → All HasCoherent (map (key_of jiff now) ss)
keys_of-HasCoherent jiff now [] = tt
keys_of-HasCoherent jiff now (s ∷ ss) =
    (key_of-HasCoherent jiff now s, keys_of-HasCoherent jiff now ss)

-- At whatever instant the demo starts, the status of every key is coherent.
pub sample_keys-IsSound : (jiff : Jiff) (now : Timestamp) → IsSound (new (sample_keys jiff now))
unfolding new sample_keys
sample_keys-IsSound jiff now =
    new_from-IsSound empty (map (key_of jiff now) samples) (keys_of-HasCoherent jiff now samples)
      empty-IsSound
