-- ===== src/Semaphore/Counting.antt =====
-- Any number of threads that use one semaphore: what the calls of P and V add up to.
use operating_systems_assign.Prelude.{ℕ, ◌+◌, ◌-◌, ◌<◌, ◌≤◌, ◌≡◌, ◌⊎◌, true, false, none, some, []}
use operating_systems_assign.Semaphore.{Semaphore, semaphore, p, v}

-- The semaphore, the number of threads that V has made ready and that have not tried again, and how
-- often P and V have returned.
pub record Users : Type 0 where
  pub sem : Semaphore
  pub ready : ℕ
  pub passed : ℕ
  pub signalled : ℕ

-- One round of P in a new call or by a thread that was made ready, or a call of V.
pub data Step : Users → Users → Type 0 where
  passes :
      {s : Users} {sem : Semaphore} (t : ℕ)
      → p s.sem t ≡ (true, sem)
      → Step s (record s { sem = sem; passed = s.passed + 1 })
  sleeps :
      {s : Users} {sem : Semaphore} (t : ℕ)
      → p s.sem t ≡ (false, sem)
      → Step s (record s { sem = sem })
  wakes_and_passes :
      {s : Users} {sem : Semaphore} (t : ℕ)
      → 0 < s.ready
      → p s.sem t ≡ (true, sem)
      → Step s (record s { sem = sem; passed = s.passed + 1; ready = s.ready - 1 })
  wakes_and_sleeps :
      {s : Users} {sem : Semaphore} (t : ℕ)
      → 0 < s.ready
      → p s.sem t ≡ (false, sem)
      → Step s (record s { sem = sem; ready = s.ready - 1 })
  signals :
      {s : Users} {sem : Semaphore}
      → v s.sem ≡ (none, sem)
      → Step s (record s { sem = sem; signalled = s.signalled + 1 })
  signals_to :
      {s : Users} {sem : Semaphore} (t : ℕ)
      → v s.sem ≡ (some t, sem)
      → Step s (record s { sem = sem; ready = s.ready + 1; signalled = s.signalled + 1 })

pub data Reachable (initial_value : ℕ) : Users → Type 0 where
  at_start :
      Reachable initial_value
        (record { sem = semaphore initial_value; ready = 0; passed = 0; signalled = 0 })
  after : {s s' : Users} → Reachable initial_value s → Step s s' → Reachable initial_value s'

-- The value counts, and while threads sleep it is no more than the threads that are ready.
abbrev pub Counts : ℕ → Users → Type 0
Counts n s =
    (s.sem.value + s.passed ≡ n + s.signalled) × ((s.sem.queue ≡ []) ⊎ (s.sem.value ≤ s.ready))
