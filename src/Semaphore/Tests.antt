-- ===== src/Semaphore/Tests.antt =====
-- The theorem on semaphores at a run of two threads on a semaphore of value 1.
use operating_systems_assign.Prelude.{◌+◌, [], ◌∷◌}
use operating_systems_assign.Semaphore.{Semaphore, semaphore}
use operating_systems_assign.Semaphore.Counting.{Users}

abbrev taken : Semaphore
taken = record { value = 0; queue = [] }

abbrev wanted : Semaphore
wanted = record { value = 0; queue = 2 ∷ [] }

abbrev given : Semaphore
given = record { value = 1; queue = [] }

abbrev started : Users
started = record { sem = semaphore 1; ready = 0; passed = 0; signalled = 0 }

abbrev one_passed : Users
one_passed = record { sem = taken; ready = 0; passed = 0 + 1; signalled = 0 }

abbrev two_sleeps : Users
two_sleeps = record { sem = wanted; ready = 0; passed = 0 + 1; signalled = 0 }

abbrev two_woken : Users
two_woken = record { sem = given; ready = 0 + 1; passed = 0 + 1; signalled = 0 + 1 }
