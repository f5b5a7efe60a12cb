-- ===== src/Scheduler/Order.antt =====
-- The order in which threads run: first ready, first run.
use operating_systems_assign.Prelude.{
  ℕ, zero, suc, ◌<◌, ◌≡◌, refl, sym, ap, ◌∙◌, true, false, Option, none, some, List, [], ◌∷◌, ◌++◌,
  get_elem?, length, length-append, Bool, ◌==◌, if◌then◌else◌, arith,
}
use mathlib.Core.List.{append-nil, append_assoc}
use mathlib.Core.Option.{none-ne-some, some-injective}
use operating_systems_assign.Scheduler.{
  Scheduler, ready_to_run, take_first, find_next_to_run, run, run_next, run_found, delete_finished,
  after_switch, fork, yield, sleep_loop, block,
}
use operating_systems_assign.Scheduler.Steps.{
  Step, forks, wakes, yields, blocks, switches, ends, deletes, Steps, stay, then_do,
}

run_next_lem :
    (xs : List ℕ) (s : Scheduler)
    → 0 < length xs
    → (run_next s (take_first xs s)).current_thread ∷ (run_next s (take_first xs s)).ready_list ≡ xs
unfolding run_next take_first run
run_next_lem [] s h = absurd (omega arith)
run_next_lem (t ∷ later) s h = refl

-- Yield switches to the front of the list behind which it has put the current thread.
yield_lem :
    (s : Scheduler)
    → (yield s).current_thread ∷ (yield s).ready_list ≡ s.ready_list ++ (s.current_thread ∷ [])
unfolding yield ready_to_run find_next_to_run
yield_lem s =
    run_next_lem (s.ready_list ++ (s.current_thread ∷ [])) (ready_to_run s s.current_thread)
      (omega (arith, length-append s.ready_list (s.current_thread ∷ [])))

sleep_loop_lem :
    (xs : List ℕ) (s s' : Scheduler)
    → run_found (take_first xs s) none ≡ some s'
    → s'.current_thread ∷ s'.ready_list ≡ xs
unfolding run_found take_first run
sleep_loop_lem [] s s' e = absurd (none-ne-some s' e)
sleep_loop_lem (t ∷ later) s s' e =
    ap (λ x. x.current_thread ∷ x.ready_list) (sym (some-injective _ _ e))

deleted_list :
    (finished : Option ℕ) (s s' : Scheduler)
    → delete_finished finished s ≡ some s'
    → s'.ready_list ≡ s.ready_list
unfolding delete_finished
deleted_list none s s' e = ap (λ x. x.ready_list) (sym (some-injective _ _ e))
deleted_list (some t) s s' e = by_thread (t == s.current_thread) e
  where
    by_thread :
        (b : Bool)
        → (if b then none else some (record s { thread_to_be_destroyed = none })) ≡ some s'
        → s'.ready_list ≡ s.ready_list
    by_thread true q = absurd (none-ne-some s' q)
    by_thread false q = ap (λ x. x.ready_list) (sym (some-injective _ _ q))

get_elem?-append :
    (xs ys : List ℕ) (k : ℕ) → k < length xs → get_elem? (xs ++ ys) k ≡ get_elem? xs k
get_elem?-append [] ys k h = absurd (omega arith)
get_elem?-append (x ∷ xs) ys zero h = refl
get_elem?-append (x ∷ xs) ys (suc k) h = get_elem?-append xs ys k (omega arith)

-- What a step switches to is taken from the front of the list, what it makes ready goes to its end.
Step_lem :
    {s s' : Scheduler} {ran readied : List ℕ}
    → Step s ran readied s'
    → ran ++ s'.ready_list ≡ s.ready_list ++ readied
unfolding fork ready_to_run block after_switch sleep_loop find_next_to_run
Step_lem (forks t e) = refl
Step_lem (wakes t e) = refl
Step_lem {s} (yields e) = yield_lem s
Step_lem {s} (blocks e) = sym (append-nil s.ready_list)
Step_lem {s} {s'} (switches e f) =
    sleep_loop_lem s.ready_list s s' f ∙ sym (append-nil s.ready_list)
Step_lem {s} (ends e) = sym (append-nil s.ready_list)
Step_lem {s} {s'} (deletes e) =
    deleted_list s.thread_to_be_destroyed s s' e ∙ sym (append-nil s.ready_list)

Steps_lem :
    {s s' : Scheduler} {runs readies : List ℕ}
    → Steps s runs readies s'
    → runs ++ s'.ready_list ≡ s.ready_list ++ readies
Steps_lem {s} stay = sym (append-nil s.ready_list)
Steps_lem (then_do {s} {s'} {s''} {ran} {readied} {runs} {readies} step steps) =
    append_assoc ran runs s''.ready_list
    ∙ ap (λ x. ran ++ x) (Steps_lem steps)
    ∙ sym (append_assoc ran s'.ready_list readies)
    ∙ ap (λ x. x ++ readies) (Step_lem step)
    ∙ append_assoc s.ready_list readied readies

-- In any sequence of steps of threads and interrupts the threads that are switched to are, in their
-- order, those of the ready list and then those that the steps put on it: a thread at place k of the
-- list runs at switch number k, if there are so many switches.
pub dispatched_in_order :
    {s s' : Scheduler} {runs readies : List ℕ} (k : ℕ)
    → Steps s runs readies s'
    → k < length runs
    → get_elem? runs k ≡ get_elem? (s.ready_list ++ readies) k
dispatched_in_order {s} {s'} {runs} {readies} k steps p =
    sym (get_elem?-append runs s'.ready_list k p) ∙ ap (λ x. get_elem? x k) (Steps_lem steps)
