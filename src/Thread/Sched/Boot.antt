-- ===== src/Thread/Sched/Boot.antt =====
-- The scheduler from thread_init to the shell: kern/thread/PThread/PThread.c and kern_main of
-- kern/init/init.c.
use os_project_signal.Prelude.{
  ℕ, zero, suc, ◌+◌, ◌<◌, ◌≡◌, ◌∙◌, ap, List, [], arith, leb, ltb, ◌&&◌, ◌==◌, if◌then◌else◌,
}
use os_project_signal.Pmm.Init.{Row}
use os_project_signal.Pmm.Container.{num_ids}
use os_project_signal.Thread.Tcb.{Threads, TQueue, tqueue_init_at_id, tcb_set_state, set_curid}
use os_project_signal.Thread.Queue.Laws.{IsQueue}
use os_project_signal.Thread.Sched.{Kernel, num_cpus, tqueue_row, tqueue_rows, thread_init}
use os_project_signal.Thread.Sched.Inv.{IsScheduled}

abbrev empty_queue : TQueue
empty_queue = record { head = num_ids; tail = num_ids }

tqueue_row-queues :
    (cpu c : ℕ) (s : Threads) (rounds chid q : ℕ)
    → (tqueue_row s c rounds chid).queues cpu q ≡ (
        if (c == cpu) && (leb chid q && ltb q (chid + rounds)) then empty_queue else s.queues cpu q)
unfolding tqueue_row tqueue_init_at_id
tqueue_row-queues cpu c s zero chid q = ground arith
tqueue_row-queues cpu c s (suc rounds) chid q =
    ground (arith, tqueue_row-queues cpu c (tqueue_init_at_id s c chid) rounds (chid + 1) q)

tqueue_rows-queues :
    (cpu : ℕ) (s : Threads) (rounds c : ℕ)
    → (tqueue_rows s rounds c).queues cpu num_ids
      ≡ (if leb c cpu && ltb cpu (c + rounds) then empty_queue else s.queues cpu num_ids)
unfolding tqueue_rows
tqueue_rows-queues cpu s zero c = ground arith
tqueue_rows-queues cpu s (suc rounds) c = ground (
  arith,
  tqueue_rows-queues cpu (tqueue_row s c (num_ids + 1) 0) rounds (c + 1),
  tqueue_row-queues cpu c s (num_ids + 1) 0 num_ids,
)

module _ (cpu : ℕ) where
  IsQueue-of_ends : (s : Threads) → s.queues cpu num_ids ≡ empty_queue → IsQueue cpu s num_ids []
  IsQueue-of_ends s e = record {
    head_eq = ap TQueue.head e;
    tail_eq = ap TQueue.tail e;
    chain = tt;
    distinct = tt;
  }

  -- thread_init leaves an empty ready queue, and thread 0 running.
  pub thread_init-IsScheduled :
      (idptbl : ℕ) (rows : List Row) (junk : ℕ → ℕ) (k : Kernel)
      → cpu < num_cpus
      → IsScheduled [] cpu (thread_init idptbl rows junk cpu k).thr []
        × ((thread_init idptbl rows junk cpu k).thr.current cpu ≡ 0)
  unfolding thread_init set_curid tcb_set_state
  thread_init-IsScheduled idptbl rows junk k lt = (
    record {
      queue = IsQueue-of_ends _ (tqueue_rows-queues cpu _ num_cpus 0 ∙ ground arith);
      in_range = ground arith;
      running = ground arith;
      only = λ pid h r. cc;
      queued = λ pid i. cc;
      complete = λ pid h r. cc;
    },
    ground arith,
  )
