-- ===== src/Synch.antt =====
-- The class Lock of dev2-filesys/nachos/code/threads/synch.cc. A thread is its number. Interrupts
-- are off in Acquire and Release, so each runs without another thread up to where it sleeps: what
-- Acquire does before Sleep and what it does behind it are two functions.
pub mod Steps
pub mod Exclusion
mod Tests
use operating_systems_assign.Prelude.{
  ℕ, Bool, true, false, Option, none, some, List, [], ◌∷◌, ◌++◌, ◌==◌, if◌then◌else◌, ◌>>=◌, ◌>>◌,
  assert,
}

-- `state` is the thread that holds the lock, if any.
pub record Lock : Type 0 where
  pub state : Option ℕ
  pub queue : List ℕ

pub new_lock : Lock
new_lock = record { state = none; queue = [] }

-- `state = currentThread`, the end of Acquire.
pub take_lock : Lock → ℕ → Lock
take_lock lock current = record lock { state = some current }

-- Acquire up to its end (TRUE), or up to the call of Sleep (FALSE).
pub acquire : Lock → ℕ → Bool × Lock
acquire lock current = elim lock.state [
  | none ↦ (true, take_lock lock current)
  | some holder ↦ (false, record lock { queue = lock.queue ++ (current ∷ []) })
]

pub is_held_by : Lock → ℕ → Bool
is_held_by lock current = elim lock.state [ none ↦ false | some holder ↦ holder == current ]

-- The lock goes to the first thread of the queue.
pub pass_on : List ℕ → Option ℕ × Lock
pass_on [] = (none, record { state = none; queue = [] })
pass_on (t ∷ queue) = (some t, record { state = some t; queue = queue })

-- Release: the thread that becomes ready, if any; `none` is the failed ASSERT.
pub release : Lock → ℕ → Option (Option ℕ × Lock)
release lock current = assert (is_held_by lock current) >> some (pass_on lock.queue)
