-- ===== src/Scheduler/Steps.antt =====
-- What threads and interrupts do to the scheduler of
-- dev3-process-management/nachos.tp3/code/threads/scheduler.cc, as steps. A thread that sleeps is two
-- steps, and interrupts may make threads ready between them, as they do in Idle.
use operating_systems_assign.Prelude.{ℕ, ◌≡◌, some, List, [], ◌∷◌, ◌++◌}
use operating_systems_assign.Scheduler.{
  Scheduler, just_created, running, blocked, ready_to_run, after_switch, fork, yield, sleep_loop,
  block,
}

-- A step from s to s', with the thread that it switches to, and the one that it puts on the list.
pub data Step : Scheduler → List ℕ → List ℕ → Scheduler → Type 0 where
  forks : {s : Scheduler} (t : ℕ) → s.status t ≡ just_created → Step s [] (t ∷ []) (fork s t)
  wakes : {s : Scheduler} (t : ℕ) → s.status t ≡ blocked → Step s [] (t ∷ []) (ready_to_run s t)
  yields :
      {s : Scheduler}
      → s.status s.current_thread ≡ running
      → Step s ((yield s).current_thread ∷ []) (s.current_thread ∷ []) (yield s)
  blocks : {s : Scheduler} → s.status s.current_thread ≡ running → Step s [] [] (block s)
  switches :
      {s s' : Scheduler}
      → s.status s.current_thread ≡ blocked
      → sleep_loop [] s ≡ some s'
      → Step s (s'.current_thread ∷ []) [] s'
  ends :
      {s : Scheduler}
      → s.status s.current_thread ≡ running
      → Step s [] [] (record s { thread_to_be_destroyed = some s.current_thread })
  deletes : {s s' : Scheduler} → after_switch s ≡ some s' → Step s [] [] s'

-- Steps one after the other, with the threads that they switch to and put on the list, in order.
pub data Steps : Scheduler → List ℕ → List ℕ → Scheduler → Type 0 where
  stay : {s : Scheduler} → Steps s [] [] s
  then_do :
      {s s' s'' : Scheduler} {ran readied runs readies : List ℕ}
      → Step s ran readied s'
      → Steps s' runs readies s''
      → Steps s (ran ++ runs) (readied ++ readies) s''
