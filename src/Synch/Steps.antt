-- ===== src/Synch/Steps.antt =====
-- Any number of threads that use one lock, as the steps that they take between two switches.
use operating_systems_assign.Prelude.{
  ℕ, ◌≡◌, ◌⊎◌, true, false, Option, none, some, ◌==◌, if◌then◌else◌,
}
use operating_systems_assign.Synch.{Lock, new_lock, take_lock, acquire, release}

-- Where a thread is: outside the lock, asleep in Acquire, made ready by Release but not yet back, or
-- between Acquire and Release.
pub data Place : Type 0 where
  outside asleep ready inside : Place

pub record Threads : Type 0 where
  pub lock : Lock
  pub place : ℕ → Place

abbrev pub move : (ℕ → Place) → ℕ → Place → ℕ → Place
move place t p u = if t == u then p else place u

abbrev pub wake : (ℕ → Place) → Option ℕ → ℕ → Place
wake place none = place
wake place (some t) = move place t ready

unfoldable pub start : Threads
start = record { lock = new_lock; place = λ t. outside }

-- One step of the thread t.
pub data Step : Threads → Threads → Type 0 where
  acquires :
      {s : Threads} {lock : Lock} (t : ℕ)
      → (s.place t ≡ outside) ⊎ (s.place t ≡ inside)
      → acquire s.lock t ≡ (true, lock)
      → Step s (record { lock = lock; place = move s.place t inside })
  sleeps :
      {s : Threads} {lock : Lock} (t : ℕ)
      → (s.place t ≡ outside) ⊎ (s.place t ≡ inside)
      → acquire s.lock t ≡ (false, lock)
      → Step s (record { lock = lock; place = move s.place t asleep })
  resumes :
      {s : Threads} (t : ℕ)
      → s.place t ≡ ready
      → Step s (record { lock = take_lock s.lock t; place = move s.place t inside })
  releases :
      {s : Threads} {woken : Option ℕ} {lock : Lock} (t : ℕ)
      → s.place t ≡ inside
      → release s.lock t ≡ some (woken, lock)
      → Step s (record { lock = lock; place = wake (move s.place t outside) woken })

pub data Reachable : Threads → Type 0 where
  at_start : Reachable start
  after : {s s' : Threads} → Reachable s → Step s s' → Reachable s'
