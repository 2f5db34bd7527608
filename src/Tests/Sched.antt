-- ===== src/Tests/Sched.antt =====
-- Queues and the scheduler.
use os_project_signal.Prelude.{◌≡◌, refl, [], ◌∷◌, arith}
use os_project_signal.Pmm.Container.{num_ids}
use os_project_signal.Thread.Tcb.{sleep}
use os_project_signal.Thread.Queue.{tqueue_enqueue, tqueue_remove}
use os_project_signal.Thread.Queue.Laws.{IsQueue, tqueue_enqueue-IsQueue}
use os_project_signal.Thread.Queue.Remove.{tqueue_remove-IsQueue}
use os_project_signal.Thread.Sched.{thread_yield, thread_sleep, thread_wakeup}
use os_project_signal.Thread.Sched.Inv.{IsScheduled}
use os_project_signal.Thread.Sched.Laws.{
  thread_yield-IsScheduled, yields, yields-runs, thread_sleep-IsScheduled,
}
use os_project_signal.Thread.Sched.Wakeup.{sleepers, thread_wakeup-IsScheduled}
use os_project_signal.Tests.State.{processes, threads, threads-IsQueue, threads-IsScheduled}

tqueue_enqueue-IsQueue_example :
    IsQueue 0 (tqueue_enqueue 0 threads num_ids 9) num_ids (2 ∷ 3 ∷ 9 ∷ [])
tqueue_enqueue-IsQueue_example =
    tqueue_enqueue-IsQueue 0 threads num_ids 9 (2 ∷ 3 ∷ []) threads-IsQueue (omega arith) refl

tqueue_remove-IsQueue_example : IsQueue 0 (tqueue_remove 0 threads num_ids 3) num_ids (2 ∷ [])
tqueue_remove-IsQueue_example =
    tqueue_remove-IsQueue 0 threads num_ids 3 (2 ∷ 3 ∷ []) threads-IsQueue refl

thread_yield-IsScheduled_example :
    IsScheduled processes 0 (thread_yield 0 threads) (3 ∷ 1 ∷ [])
    × ((thread_yield 0 threads).current 0 ≡ 2)
thread_yield-IsScheduled_example = thread_yield-IsScheduled 0 threads 2 (3 ∷ []) threads-IsScheduled

yields-runs_example : (yields 0 2 threads).current 0 ≡ 3
yields-runs_example = yields-runs 0 threads 3 (2 ∷ []) [] threads-IsScheduled

thread_sleep-IsScheduled_example :
    let s' = thread_sleep 0 threads 9 in
    IsScheduled processes 0 s' (3 ∷ [])
    × (s'.current 0 ≡ 2)
    × ((s'.pool 1).state ≡ sleep)
    × ((s'.pool 1).channel ≡ 9)
thread_sleep-IsScheduled_example =
    thread_sleep-IsScheduled 0 threads 9 2 (3 ∷ []) threads-IsScheduled

thread_wakeup-IsScheduled_example :
    IsScheduled processes 0 (thread_wakeup 0 threads 7) (2 ∷ 3 ∷ sleepers 0 threads 7 63 1)
thread_wakeup-IsScheduled_example =
    thread_wakeup-IsScheduled 0 threads (2 ∷ 3 ∷ []) 7 threads-IsScheduled
