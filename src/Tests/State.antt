-- ===== src/Tests/State.antt =====
-- A state of the scheduler for the examples: on CPU 0 process 1 runs, 2 and then 3 are ready and 4
-- sleeps on channel 7; thread 0 is as the boot leaves it, and the other blocks are zeroed.
use os_project_signal.Prelude.{ℕ, refl, List, [], ◌∷◌, arith, ◌==◌, if◌then◌else◌}
use os_project_signal.Pmm.Container.{num_ids}
use os_project_signal.Thread.Tcb.{Threads, Tcb, ready, run, sleep, empty_tcb}
use os_project_signal.Thread.Queue.Laws.{IsQueue}
use os_project_signal.Thread.Sched.Inv.{IsScheduled}

abbrev pub pool : ℕ → Tcb
pool pid =
    if pid == 0
    then record empty_tcb { state = run }
    else if pid == 1
    then record empty_tcb { state = run }
    else if pid == 2
    then record empty_tcb { state = ready; next = 3 }
    else if pid == 3
    then record empty_tcb { state = ready; prev = 2 }
    else if pid == 4
    then record empty_tcb { state = sleep; channel = 7 }
    else record empty_tcb { state = ready; prev = 0; next = 0 }

abbrev pub threads : Threads
threads = record {
  pool = pool;
  queues = λ cpu chid.
      if chid == num_ids then record { head = 2; tail = 3 } else record { head = 64; tail = 64 };
  current = λ cpu. 1;
  ticks = λ cpu. 0;
}

pub threads-IsQueue : IsQueue 0 threads num_ids (2 ∷ 3 ∷ [])
threads-IsQueue = record {
  head_eq = refl;
  tail_eq = refl;
  chain = ground arith;
  distinct = ground arith;
}

abbrev pub processes : List ℕ
processes = 1 ∷ 2 ∷ 3 ∷ 4 ∷ []

pub threads-IsScheduled : IsScheduled processes 0 threads (2 ∷ 3 ∷ [])
threads-IsScheduled = record {
  queue = threads-IsQueue;
  in_range = omega arith;
  running = refl;
  only = λ pid lt e. ground arith;
  queued = λ pid m. ground arith;
  complete = λ pid lt e. ground arith;
}
