-- ===== src/Semaphore.antt =====
-- The class Semaphore of dev2-filesys/nachos/code/threads/synch.cc. A thread is its number.
-- Interrupts are off in P and V: each runs without another thread up to where it sleeps.
pub mod Counting
mod Tests
use operating_systems_assign.Prelude.{
  ℕ, ◌+◌, ◌-◌, Bool, true, false, Option, none, some, List, [], ◌∷◌, ◌++◌, ◌==◌, if◌then◌else◌,
}

pub record Semaphore : Type 0 where
  pub value : ℕ
  pub queue : List ℕ

pub semaphore : ℕ → Semaphore
semaphore initial_value = record { value = initial_value; queue = [] }

-- One round of P, from its start or from where the thread slept: TRUE if P returns, and FALSE if
-- the thread goes to sleep, from where it tries again.
pub p : Semaphore → ℕ → Bool × Semaphore
p s current =
    if s.value == 0
    then (false, record s { queue = s.queue ++ (current ∷ []) })
    else (true, record s { value = s.value - 1 })

-- V, with the thread that it makes ready, if any.
pub v : Semaphore → Option ℕ × Semaphore
v s = elim s.queue [
  | [] ↦ (none, record s { value = s.value + 1 })
  | t ∷ queue ↦ (some t, record { value = s.value + 1; queue = queue })
]
