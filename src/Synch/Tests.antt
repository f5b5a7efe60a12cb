-- ===== src/Synch/Tests.antt =====
-- The theorems on the lock at a run of two threads: 1 takes the lock and 2 sleeps.
use operating_systems_assign.Prelude.{ℕ, ◌≡◌, ◌≢◌, refl, inl, some, [], ◌∷◌}
use operating_systems_assign.Synch.{Lock, new_lock, take_lock, acquire}
use operating_systems_assign.Synch.Steps.{
  outside, asleep, inside, Threads, move, start, acquires, sleeps, Reachable, at_start, after,
}
use operating_systems_assign.Synch.Exclusion.{mutual_exclusion, no_sleeper}

abbrev held : Lock
held = record { state = some 1; queue = [] }

abbrev wanted : Lock
wanted = record { state = some 1; queue = 2 ∷ [] }

abbrev one_inside : Threads
one_inside = record { lock = held; place = move (λ t. outside) 1 inside }

abbrev two_asleep : Threads
two_asleep = record { lock = wanted; place = move (move (λ t. outside) 1 inside) 2 asleep }

one_inside-Reachable : Reachable one_inside
unfolding start new_lock acquire take_lock
one_inside-Reachable = after at_start (acquires {s = start} {lock = held} 1 (inl refl) refl)

two_asleep-Reachable : Reachable two_asleep
unfolding acquire
two_asleep-Reachable =
    after one_inside-Reachable (sleeps {s = one_inside} {lock = wanted} 2 (inl refl) refl)

abbrev first : ℕ
first = 1

mutual_exclusion_example : first ≡ first
mutual_exclusion_example = mutual_exclusion two_asleep first first two_asleep-Reachable refl refl

no_sleeper_example : outside ≢ asleep
unfolding start new_lock
no_sleeper_example = no_sleeper start 2 at_start refl
