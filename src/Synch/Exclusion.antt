-- ===== src/Synch/Exclusion.antt =====
-- The lock excludes: what holds in every state that the threads can reach.
use operating_systems_assign.Prelude.{
  ℕ, ◌≡◌, ◌≢◌, refl, ap, sym, ◌∙◌, inl, inr, ◌⊎◌, subst, true, none, some, List, [], ◌∷◌, ◌++◌,
  arith, Bool-cases, Option-cases, ℕ_discrete,
}
use operating_systems_assign.AddrSpace.Victim.{queued, queued-append}
use operating_systems_assign.Synch.{new_lock, take_lock, acquire, is_held_by, pass_on, release}
use operating_systems_assign.Synch.Steps.{
  Place, outside, asleep, ready, inside, Threads, move, wake, start, Step, acquires, sleeps,
  resumes, releases, Reachable, at_start, after,
}

-- A thread between Acquire and Release, or on its way back from its sleep, holds the lock; one that
-- sleeps is in the queue, which is empty while the lock is free.
pub record IsExclusive (s : Threads) : Type 0 where
  pub held_inside : (t : ℕ) → s.place t ≡ inside → s.lock.state ≡ some t
  pub held_ready : (t : ℕ) → s.place t ≡ ready → s.lock.state ≡ some t
  pub in_queue : (t : ℕ) → s.place t ≡ asleep → queued s.lock.queue t ≡ true
  pub free : s.lock.state ≡ none → s.lock.queue ≡ []

start-IsExclusive : IsExclusive start
unfolding start new_lock
start-IsExclusive = record {
  held_inside = λ t e. cc;
  held_ready = λ t e. cc;
  in_queue = λ t e. cc;
  free = λ e. refl;
}

move_cases :
    (place : ℕ → Place) (t u : ℕ) (p : Place)
    → ((t ≡ u) × (move place t p u ≡ p)) ⊎ ((t ≢ u) × (move place t p u ≡ place u))
move_cases place t u p = elim (ℕ_discrete t u) [
  | yes e ↦ inl (e, ground (arith, e))
  | no e ↦ inr (e, ground (arith, e))
]

-- Nobody is between Acquire and Release, or on the way back, when the lock is free; and nobody but
-- the holder when it is held.
holder :
    (s : Threads) (t u : ℕ)
    → IsExclusive s
    → s.lock.state ≡ some t
    → (s.place u ≡ inside) ⊎ (s.place u ≡ ready)
    → t ≡ u
holder s t u c e (inl h) = let same = c.held_inside u h in cc
holder s t u c e (inr h) = let same = c.held_ready u h in cc

acquires-IsExclusive :
    (s : Threads) (t : ℕ)
    → IsExclusive s
    → s.lock.state ≡ none
    → IsExclusive (record { lock = take_lock s.lock t; place = move s.place t inside })
unfolding take_lock
acquires-IsExclusive s t c e = record {
  held_inside = λ u h. elim (move_cases s.place t u inside) [
    | inl (q, _) ↦ ap some q
    | inr (q, m) ↦ let held = c.held_inside u (sym m ∙ h) in cc
  ];
  held_ready = λ u h. elim (move_cases s.place t u inside) [
    | inl (q, _) ↦ ap some q
    | inr (q, m) ↦ let held = c.held_ready u (sym m ∙ h) in cc
  ];
  in_queue = λ u h. elim (move_cases s.place t u inside) [
    | inl (q, m) ↦ cc
    | inr (q, m) ↦ c.in_queue u (sym m ∙ h)
  ];
  free = λ h. cc;
}

resumes-IsExclusive :
    (s : Threads) (t : ℕ)
    → IsExclusive s
    → s.place t ≡ ready
    → IsExclusive (record { lock = take_lock s.lock t; place = move s.place t inside })
unfolding take_lock
resumes-IsExclusive s t c r = record {
  held_inside = λ u h. elim (move_cases s.place t u inside) [
    | inl (q, _) ↦ ap some q
    | inr (q, m) ↦ ap some (holder s t u c (c.held_ready t r) (inl (sym m ∙ h)))
  ];
  held_ready = λ u h. elim (move_cases s.place t u inside) [
    | inl (q, _) ↦ ap some q
    | inr (q, m) ↦ ap some (holder s t u c (c.held_ready t r) (inr (sym m ∙ h)))
  ];
  in_queue = λ u h. elim (move_cases s.place t u inside) [
    | inl (q, m) ↦ cc
    | inr (q, m) ↦ c.in_queue u (sym m ∙ h)
  ];
  free = λ h. cc;
}

sleeps-IsExclusive :
    (s : Threads) (t g : ℕ)
    → IsExclusive s
    → s.lock.state ≡ some g
    → IsExclusive (record {
      lock = record s.lock { queue = s.lock.queue ++ (t ∷ []) };
      place = move s.place t asleep;
    })
unfolding queued
sleeps-IsExclusive s t g c e = record {
  held_inside = λ u h. elim (move_cases s.place t u asleep) [
    | inl (q, m) ↦ cc
    | inr (q, m) ↦ c.held_inside u (sym m ∙ h)
  ];
  held_ready = λ u h. elim (move_cases s.place t u asleep) [
    | inl (q, m) ↦ cc
    | inr (q, m) ↦ c.held_ready u (sym m ∙ h)
  ];
  in_queue = λ u h. elim (move_cases s.place t u asleep) [
    | inl (q, m) ↦ ground (arith, queued-append s.lock.queue (t ∷ []) u, q)
    | inr (q, m) ↦ ground (arith, queued-append s.lock.queue (t ∷ []) u, c.in_queue u (sym m ∙ h))
  ];
  free = λ h. cc;
}

releases-IsExclusive :
    (s : Threads) (t : ℕ) (queue : List ℕ)
    → IsExclusive s
    → s.place t ≡ inside
    → s.lock.queue ≡ queue
    → IsExclusive (record {
      lock = (pass_on queue).1;
      place = wake (move s.place t outside) (pass_on queue).0;
    })
unfolding pass_on queued
releases-IsExclusive s t [] c h q = record {
  held_inside = λ u i. elim (move_cases s.place t u outside) [
    | inl (e, m) ↦ cc
    | inr (n, m) ↦ absurd (n (holder s t u c (c.held_inside t h) (inl (sym m ∙ i))))
  ];
  held_ready = λ u i. elim (move_cases s.place t u outside) [
    | inl (e, m) ↦ cc
    | inr (n, m) ↦ absurd (n (holder s t u c (c.held_inside t h) (inr (sym m ∙ i))))
  ];
  in_queue = λ u i. elim (move_cases s.place t u outside) [
    | inl (e, m) ↦ cc
    | inr (n, m) ↦ ap (λ l. queued l u) (sym q) ∙ c.in_queue u (sym m ∙ i)
  ];
  free = λ e. refl;
}
releases-IsExclusive s t (v ∷ queue) c h q = record {
  held_inside = λ u i. elim (move_cases (move s.place t outside) v u ready) [
    | inl (e, m) ↦ cc
    | inr (n, m) ↦ absurd (gone u (inl (sym m ∙ i)))
  ];
  held_ready = λ u i. elim (move_cases (move s.place t outside) v u ready) [
    | inl (e, m) ↦ ap some e
    | inr (n, m) ↦ absurd (gone u (inr (sym m ∙ i)))
  ];
  in_queue = λ u i. elim (move_cases (move s.place t outside) v u ready) [
    | inl (e, m) ↦ cc
    | inr (n, m) ↦ elim (move_cases s.place t u outside) [
      | inl (e, l) ↦ cc
      | inr (k, l) ↦
          let waits : queued (v ∷ queue) u ≡ true =
            ap (λ x. queued x u) (sym q) ∙ c.in_queue u (sym l ∙ sym m ∙ i) in
          ground (arith, waits, n)
    ]
  ];
  free = λ e. cc;
}
  where
    gone : (u : ℕ) → (move s.place t outside u ≡ inside) ⊎ (move s.place t outside u ≡ ready) → ⊥
    gone u i = elim (move_cases s.place t u outside) [
      | inl (e, m) ↦ elim i [ inl a ↦ cc | inr a ↦ cc ]
      | inr (n, m) ↦ n (
          holder s t u c (c.held_inside t h)
            (elim i [ inl a ↦ inl (sym m ∙ a) | inr a ↦ inr (sym m ∙ a) ]))
    ]

Step-IsExclusive : {s s' : Threads} → IsExclusive s → Step s s' → IsExclusive s'
unfolding acquire release
Step-IsExclusive c (acquires {s} {lock} t p e) = elim (Option-cases s.lock.state) [
  | inl q ↦
      let same : take_lock s.lock t ≡ lock = ground (arith, q, e) in
      subst (λ l. IsExclusive (record { lock = l; place = move s.place t inside })) same
        (acquires-IsExclusive s t c q)
  | inr (g, q) ↦ absurd (ground (arith, q, e))
]
Step-IsExclusive c (sleeps {s} {lock} t p e) = elim (Option-cases s.lock.state) [
  | inl q ↦ absurd (ground (arith, q, e))
  | inr (g, q) ↦
      let same : record s.lock { queue = s.lock.queue ++ (t ∷ []) } ≡ lock = ground (arith, q, e) in
      subst (λ l. IsExclusive (record { lock = l; place = move s.place t asleep })) same
        (sleeps-IsExclusive s t g c q)
]
Step-IsExclusive c (resumes {s} t p) = resumes-IsExclusive s t c p
Step-IsExclusive c (releases {s} {woken} {lock} t p e) = elim (Bool-cases (is_held_by s.lock t)) [
  | inl q ↦
      let same : pass_on s.lock.queue ≡ (woken, lock) = ground (arith, q, e) in
      subst (λ r. IsExclusive (record { lock = r.1; place = wake (move s.place t outside) r.0 }))
        same (releases-IsExclusive s t s.lock.queue c p refl)
  | inr q ↦ absurd (ground (arith, q, e))
]

pub Reachable-IsExclusive : {s : Threads} → Reachable s → IsExclusive s
Reachable-IsExclusive at_start = start-IsExclusive
Reachable-IsExclusive (after r x) = Step-IsExclusive (Reachable-IsExclusive r) x

-- Mutual exclusion: in every state that the threads can reach, two threads between Acquire and
-- Release are the same.
pub mutual_exclusion :
    (s : Threads) (t u : ℕ) → Reachable s → s.place t ≡ inside → s.place u ≡ inside → t ≡ u
mutual_exclusion s t u r h k =
    holder s t u (Reachable-IsExclusive r) ((Reachable-IsExclusive r).held_inside t h) (inl k)

-- In every state that the threads can reach, no thread sleeps in Acquire while the lock is free.
pub no_sleeper : (s : Threads) (t : ℕ) → Reachable s → s.lock.state ≡ none → s.place t ≢ asleep
unfolding queued
no_sleeper s t r f h =
    let c = Reachable-IsExclusive r in
    let empty = c.free f in let waits = c.in_queue t h in absurd (ground (arith, empty, waits))
