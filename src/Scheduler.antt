-- ===== src/Scheduler.antt =====
-- dev3-process-management/nachos.tp3/code/threads/scheduler.cc and thread.cc: which thread runs. A
-- thread is its number. Interrupts are off in every operation, so each runs to its end, or to the
-- SWITCH in Run, without another. The registers that SWITCH, SaveUserState and RestoreUserState move
-- are the machine's and are not kept here.
pub mod Steps
pub mod Invariant
pub mod Order
mod Tests
use operating_systems_assign.Prelude.{
  ℕ, Bool, true, false, Option, none, some, List, [], ◌∷◌, ◌++◌, ◌==◌, if◌then◌else◌,
}

pub data ThreadStatus : Type 0 where
  just_created running ready blocked : ThreadStatus

-- The ready list, the status of each thread, and the globals currentThread and threadToBeDestroyed.
pub record Scheduler : Type 0 where
  pub ready_list : List ℕ
  pub status : ℕ → ThreadStatus
  pub current_thread : ℕ
  pub thread_to_be_destroyed : Option ℕ

abbrev pub set_status : (ℕ → ThreadStatus) → ℕ → ThreadStatus → ℕ → ThreadStatus
set_status status t new u = if t == u then new else status u

unfoldable pub ready_to_run : Scheduler → ℕ → Scheduler
ready_to_run s t = record s {
  status = set_status s.status t ready;
  ready_list = s.ready_list ++ (t ∷ []);
}

-- FindNextToRun: the thread and the scheduler without it; `none` is NULL.
unfoldable pub take_first : List ℕ → Scheduler → Option (ℕ × Scheduler)
take_first [] s = none
take_first (t ∷ later) s = some (t, record s { ready_list = later })

unfoldable pub find_next_to_run : Scheduler → Option (ℕ × Scheduler)
find_next_to_run s = take_first s.ready_list s

-- Run up to its SWITCH.
unfoldable pub run : Scheduler → ℕ → Scheduler
run s next_thread = record s {
  current_thread = next_thread;
  status = set_status s.status next_thread running;
}

-- Run behind its SWITCH, in the thread that is switched to: the thread that has finished is deleted,
-- and `none` is the failed ASSERT of its destructor.
unfoldable pub delete_finished : Option ℕ → Scheduler → Option Scheduler
delete_finished none s = some s
delete_finished (some t) s =
    if t == s.current_thread then none else some (record s { thread_to_be_destroyed = none })

unfoldable pub after_switch : Scheduler → Option Scheduler
after_switch s = delete_finished s.thread_to_be_destroyed s

-- Fork, behind the allocation of the stack.
unfoldable pub fork : Scheduler → ℕ → Scheduler
fork s t = ready_to_run s t

unfoldable pub run_next : Scheduler → Option (ℕ × Scheduler) → Scheduler
run_next s none = s
run_next s (some (t, rest)) = run rest t

-- Yield of the current thread, up to the SWITCH.
unfoldable pub yield : Scheduler → Scheduler
yield s =
    let waiting = ready_to_run s s.current_thread in run_next waiting (find_next_to_run waiting)

-- The loop of Sleep: each round that finds no thread calls Idle, in which interrupts make the threads
-- of one list ready. `none` is Idle without a pending interrupt, which halts the machine.
unfoldable pub ready_all : Scheduler → List ℕ → Scheduler
ready_all s [] = s
ready_all s (t ∷ ts) = ready_all (ready_to_run s t) ts

-- What a round of the loop does with the thread that was found, or else with the rest of the loop.
unfoldable pub run_found : Option (ℕ × Scheduler) → Option Scheduler → Option Scheduler
run_found none idle = idle
run_found (some (t, rest)) idle = some (run rest t)

unfoldable pub sleep_loop : List (List ℕ) → Scheduler → Option Scheduler
sleep_loop [] s = run_found (find_next_to_run s) none
sleep_loop (woken ∷ later) s = run_found (find_next_to_run s) (sleep_loop later (ready_all s woken))

-- What Sleep does before its loop.
unfoldable pub block : Scheduler → Scheduler
block s = record s { status = set_status s.status s.current_thread blocked }

unfoldable pub sleep : List (List ℕ) → Scheduler → Option Scheduler
sleep idle s = sleep_loop idle (block s)

unfoldable pub finish : List (List ℕ) → Scheduler → Option Scheduler
finish idle s = sleep idle (record s { thread_to_be_destroyed = some s.current_thread })
