-- ===== src/Scheduler/Invariant.antt =====
-- What every state of the scheduler of dev3-process-management/nachos.tp3/code/threads/scheduler.cc
-- satisfies, whatever threads and interrupts do.
use operating_systems_assign.Prelude.{
  ℕ, ◌+◌, ◌≤◌, ◌≡◌, refl, sym, ap, subst, ◌∙◌, ◌⊎◌, inl, inr, Bool, true, false, Option, none, some,
  List, [], ◌∷◌, ◌++◌, ◌==◌, ==_iff, ==_refl, if◌then◌else◌, Bool-cases, arith,
}
use mathlib.Core.Bool.{true≢false}
use mathlib.Core.Option.{none-ne-some, some-injective}
use operating_systems_assign.Scheduler.{
  ThreadStatus, just_created, running, ready, blocked, Scheduler, set_status, ready_to_run,
  take_first, find_next_to_run, run, run_next, run_found, delete_finished, after_switch, fork,
  yield, sleep_loop, block,
}
use operating_systems_assign.Scheduler.Steps.{
  Step, forks, wakes, yields, blocks, switches, ends, deletes, Steps, stay, then_do,
}

-- How often a thread is on a list.
unfoldable pub occurrences : ℕ → List ℕ → ℕ
occurrences t [] = 0
occurrences t (u ∷ us) = (if u == t then 1 else 0) + occurrences t us

unfoldable pub times_ready : ThreadStatus → ℕ
times_ready just_created = 0
times_ready running = 0
times_ready ready = 1
times_ready blocked = 0

unfoldable pub is_running : ThreadStatus → Bool
is_running just_created = false
is_running running = true
is_running ready = false
is_running blocked = false

times_ready-le : (status : ThreadStatus) → times_ready status ≤ 1
unfolding times_ready
times_ready-le just_created = omega arith
times_ready-le running = omega arith
times_ready-le ready = omega arith
times_ready-le blocked = omega arith

-- A thread that is ready is on the list once, every other is not on it, and only the current thread
-- may be running.
abbrev pub IsConsistent : Scheduler → Type 0
IsConsistent s =
    ((t : ℕ) → occurrences t s.ready_list ≡ times_ready (s.status t))
    × ((t : ℕ) → is_running (s.status t) ≡ true → t ≡ s.current_thread)

occurrences-append :
    (t : ℕ) (xs ys : List ℕ) → occurrences t (xs ++ ys) ≡ occurrences t xs + occurrences t ys
unfolding occurrences
occurrences-append t [] ys = omega arith
occurrences-append t (x ∷ xs) ys = omega (arith, occurrences-append t xs ys)

-- The new status of a thread, and that of the others.
status_cases :
    (status : ℕ → ThreadStatus) (t : ℕ) (new : ThreadStatus) (u : ℕ)
    → ((t ≡ u) × ((t == u) ≡ true) × (set_status status t new u ≡ new))
      ⊎ (((t == u) ≡ false) × (set_status status t new u ≡ status u))
status_cases status t new u = elim (Bool-cases (t == u)) [
  | inl e ↦ inl ((==_iff t u).0 e, e, rw e refl)
  | inr e ↦ inr (e, rw e refl)
]

running_after :
    (s : Scheduler) (t : ℕ) (new : ThreadStatus)
    → IsConsistent s
    → is_running new ≡ false
    → (u : ℕ) → is_running (set_status s.status t new u) ≡ true
    → u ≡ s.current_thread
running_after s t new (c, r) e u h = elim (status_cases s.status t new u) [
  | inl d ↦ absurd (true≢false (sym h ∙ ap is_running d.2 ∙ e))
  | inr d ↦ r u (ap is_running (sym d.1) ∙ h)
]

-- Making a thread ready that is not.
ready_to_run-IsConsistent :
    (s : Scheduler) (t : ℕ)
    → IsConsistent s
    → times_ready (s.status t) ≡ 0
    → IsConsistent (ready_to_run s t)
unfolding ready_to_run occurrences times_ready is_running
ready_to_run-IsConsistent s t (c, r) e = (
  λ u.
      let more = occurrences-append u s.ready_list (t ∷ []) in
      elim (status_cases s.status t ready u) [
        | inl d ↦
            let before = c u ∙ ap (λ x. times_ready (s.status x)) (sym d.0) ∙ e in
            more ∙ rw d.1 (omega (arith, before)) ∙ sym (ap times_ready d.2)
        | inr d ↦ more ∙ rw d.0 (omega (arith, c u)) ∙ sym (ap times_ready d.1)
      ],
  running_after s t ready (c, r) refl,
)

-- Switching to the thread at the front of the list, while no other is running.
run-IsConsistent :
    (s : Scheduler) (t : ℕ) (later : List ℕ)
    → IsConsistent s
    → s.ready_list ≡ t ∷ later
    → ((u : ℕ) → is_running (s.status u) ≡ false)
    → IsConsistent (run (record s { ready_list = later }) t)
unfolding run occurrences times_ready is_running
run-IsConsistent s t later (c, r) e idle = (
  λ u.
      let before = sym (ap (occurrences u) e) ∙ c u in
      elim (status_cases s.status t running u) [
        | inl d ↦
            let at_front : 1 + occurrences u later ≡ times_ready (s.status u) =
              ap (λ b. (if b then 1 else 0) + occurrences u later) (sym d.1) ∙ before in
            omega (arith, at_front, times_ready-le (s.status u)) ∙ sym (ap times_ready d.2)
        | inr d ↦
            let behind : 0 + occurrences u later ≡ times_ready (s.status u) =
              ap (λ b. (if b then 1 else 0) + occurrences u later) (sym d.0) ∙ before in
            omega (arith, behind) ∙ sym (ap times_ready d.1)
      ],
  λ u h. elim (status_cases s.status t running u) [
    | inl d ↦ sym d.0
    | inr d ↦ absurd (true≢false (sym h ∙ ap is_running d.1 ∙ idle u))
  ],
)

nobody_runs :
    (s : Scheduler)
    → IsConsistent s
    → is_running (s.status s.current_thread) ≡ false
    → (u : ℕ) → is_running (s.status u) ≡ false
nobody_runs s (c, r) e u = elim (Bool-cases (is_running (s.status u))) [
  | inr f ↦ f
  | inl f ↦ absurd (true≢false (sym f ∙ ap (λ t. is_running (s.status t)) (r u f) ∙ e))
]

run_next-IsConsistent :
    (s : Scheduler) (xs : List ℕ)
    → s.ready_list ≡ xs
    → IsConsistent s
    → ((u : ℕ) → is_running (s.status u) ≡ false)
    → IsConsistent (run_next s (take_first xs s))
unfolding run_next take_first
run_next-IsConsistent s [] e c idle = c
run_next-IsConsistent s (t ∷ later) e c idle = run-IsConsistent s t later c e idle

now_ready :
    (s : Scheduler) → is_running ((ready_to_run s s.current_thread).status s.current_thread) ≡ false
unfolding ready_to_run is_running
now_ready s = rw (==_refl s.current_thread) refl

yield-IsConsistent :
    (s : Scheduler) → IsConsistent s → s.status s.current_thread ≡ running → IsConsistent (yield s)
unfolding yield find_next_to_run times_ready ready_to_run
yield-IsConsistent s c e =
    let t = s.current_thread in
    let waiting = ready_to_run s t in
    let c' = ready_to_run-IsConsistent s t c (ap times_ready e) in
    run_next-IsConsistent waiting waiting.ready_list refl c' (nobody_runs waiting c' (now_ready s))

dispatch-IsConsistent :
    (s s' : Scheduler) (xs : List ℕ)
    → s.ready_list ≡ xs
    → IsConsistent s
    → ((u : ℕ) → is_running (s.status u) ≡ false)
    → run_found (take_first xs s) none ≡ some s'
    → IsConsistent s'
unfolding run_found take_first
dispatch-IsConsistent s s' [] e c idle f = absurd (none-ne-some s' f)
dispatch-IsConsistent s s' (t ∷ later) e c idle f =
    subst IsConsistent (some-injective _ _ f) (run-IsConsistent s t later c e idle)

block-IsConsistent :
    (s : Scheduler) → IsConsistent s → s.status s.current_thread ≡ running → IsConsistent (block s)
unfolding block times_ready is_running
block-IsConsistent s (c, r) e =
    let t = s.current_thread in
    (
      λ u. elim (status_cases s.status t blocked u) [
        | inl d ↦
            c u
            ∙ ap (λ x. times_ready (s.status x)) (sym d.0)
            ∙ ap times_ready e
            ∙ sym (ap times_ready d.2)
        | inr d ↦ c u ∙ sym (ap times_ready d.1)
      ],
      running_after s t blocked (c, r) refl,
    )

deleted-IsConsistent :
    (finished : Option ℕ) (s s' : Scheduler)
    → IsConsistent s
    → delete_finished finished s ≡ some s'
    → IsConsistent s'
unfolding delete_finished
deleted-IsConsistent none s s' c e = subst IsConsistent (some-injective _ _ e) c
deleted-IsConsistent (some t) s s' c e = by_thread (t == s.current_thread) e
  where
    by_thread :
        (b : Bool)
        → (if b then none else some (record s { thread_to_be_destroyed = none })) ≡ some s'
        → IsConsistent s'
    by_thread true q = absurd (none-ne-some s' q)
    by_thread false q = subst IsConsistent (some-injective _ _ q) c

-- Every step of threads and interrupts keeps the ready list without repetitions and equal to the
-- threads that are READY, and at most the current thread RUNNING.
pub Step-IsConsistent :
    {s s' : Scheduler} {ran readied : List ℕ}
    → Step s ran readied s'
    → IsConsistent s
    → IsConsistent s'
unfolding fork sleep_loop find_next_to_run after_switch times_ready is_running
Step-IsConsistent {s} (forks t e) c = ready_to_run-IsConsistent s t c (ap times_ready e)
Step-IsConsistent {s} (wakes t e) c = ready_to_run-IsConsistent s t c (ap times_ready e)
Step-IsConsistent {s} (yields e) c = yield-IsConsistent s c e
Step-IsConsistent {s} (blocks e) c = block-IsConsistent s c e
Step-IsConsistent {s} {s'} (switches e f) c =
    dispatch-IsConsistent s s' s.ready_list refl c (nobody_runs s c (ap is_running e)) f
Step-IsConsistent {s} (ends e) c = c
Step-IsConsistent {s} {s'} (deletes e) c = deleted-IsConsistent s.thread_to_be_destroyed s s' c e

-- The same for any sequence of steps.
pub Steps-IsConsistent :
    {s s' : Scheduler} {runs readies : List ℕ}
    → Steps s runs readies s'
    → IsConsistent s
    → IsConsistent s'
Steps-IsConsistent stay c = c
Steps-IsConsistent (then_do step steps) c = Steps-IsConsistent steps (Step-IsConsistent step c)
