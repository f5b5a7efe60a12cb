-- ===== src/Scheduler/Tests.antt =====
-- The scheduler of dev3-process-management/nachos.tp3/code/threads/scheduler.cc with the main thread,
-- 0, and two others.
use operating_systems_assign.Prelude.{
  ℕ, ◌≡◌, refl, sym, ◌∙◌, ◌⊎◌, Bool-cases, ==_iff, inl, inr, Bool, true, false, none, List, [], ◌∷◌,
  ◌++◌, get_elem?, ◌==◌, if◌then◌else◌, arith,
}
use mathlib.Core.Bool.{true≢false}
use operating_systems_assign.Scheduler.{
  ThreadStatus, just_created, running, Scheduler, ready_to_run, take_first, find_next_to_run, run,
  run_next, fork, yield,
}
use operating_systems_assign.Scheduler.Steps.{forks, yields, Steps, stay, then_do}
use operating_systems_assign.Scheduler.Order.{dispatched_in_order}
use operating_systems_assign.Scheduler.Invariant.{
  IsConsistent, occurrences, times_ready, is_running, Steps-IsConsistent,
}

abbrev first_status : ℕ → ThreadStatus
first_status t = if t == 0 then running else just_created

abbrev main_only : Scheduler
main_only = record {
  ready_list = [];
  status = first_status;
  current_thread = 0;
  thread_to_be_destroyed = none;
}

-- Main forks thread 1 and yields to it, and thread 1 yields back.
abbrev forked : Scheduler
forked = fork main_only 1

abbrev switched_to : List ℕ
switched_to = 1 ∷ 0 ∷ []

abbrev made_ready : List ℕ
made_ready = 1 ∷ 0 ∷ 1 ∷ []

two_yields : Steps main_only switched_to made_ready (yield (yield forked))
unfolding fork yield ready_to_run find_next_to_run take_first run_next run
two_yields =
    then_do (forks {s = main_only} 1 refl)
      (then_do (yields {s = forked} refl) (then_do (yields {s = yield forked} refl) stay))

dispatched_in_order_example :
    get_elem? switched_to 1 ≡ get_elem? (main_only.ready_list ++ made_ready) 1
dispatched_in_order_example = dispatched_in_order {s = main_only} 1 two_yields (omega arith)

main_only-IsConsistent : IsConsistent main_only
unfolding occurrences times_ready is_running
main_only-IsConsistent = (λ t. counts (t == 0), λ t. runs t (Bool-cases (t == 0)))
  where
    counts : (b : Bool) → 0 ≡ times_ready (if b then running else just_created)
    counts true = refl
    counts false = refl

    runs :
        (t : ℕ)
        → ((t == 0) ≡ true) ⊎ ((t == 0) ≡ false)
        → is_running (first_status t) ≡ true
        → t ≡ 0
    runs t (inl e) h = (==_iff t 0).0 e
    runs t (inr e) h = absurd (true≢false (sym h ∙ rw e refl))

Steps-IsConsistent_example : IsConsistent (yield (yield forked))
Steps-IsConsistent_example = Steps-IsConsistent two_yields main_only-IsConsistent
