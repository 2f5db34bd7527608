-- ===== src/Thread/Sched.antt =====
-- The scheduler: kern/thread/PThread/PThread.c, with tcb_init of kern/thread/PTCBInit/PTCBInit.c,
-- tqueue_init of kern/thread/PTQueueInit/PTQueueInit.c and kctx_new of
-- kern/thread/PKCtxNew/PKCtxNew.c, and what kern_main of kern/init/init.c does with the first
-- threads. Each function holds sched_lk from its start to its end or to
-- the switch of stacks, so it is one step. kctx_switch is assembly: a function that switches is
-- modelled up to there, and thread_sleep also behind it.
pub mod Boot
pub mod Inv
pub mod Laws
pub mod Spawn
pub mod Wakeup
use os_project_signal.Prelude.{
  ℕ, zero, suc, ◌+◌, ◌-◌, ◌/◌, ◌%◌, ◌≡◌, Bool, true, false, ◌&&◌, Option, none, some, List, arith,
  ◌==◌, if◌then◌else◌, ltb, u32, update,
}
use os_project_signal.Pmm.Init.{Row}
use os_project_signal.Pmm.Container.{num_ids}
use os_project_signal.Vmm.Table.{Vm}
use os_project_signal.Vmm.Map.{alloc_mem_quota}
use os_project_signal.Vmm.Init.{paging_init}
use os_project_signal.Thread.Tcb.{
  Threads, TState, ready, run, sleep, dead, same_state, tcb_get_state, tcb_set_state, tcb_get_chan,
  tcb_set_chan, tcb_init_at_id, tqueue_init_at_id, get_curid, set_curid,
}
use os_project_signal.Thread.Queue.{tqueue_enqueue, tqueue_dequeue, tqueue_remove}

abbrev pub num_cpus : ℕ
num_cpus = 8

abbrev pub sched_slice : ℕ
sched_slice = 5

-- `struct kctx`, the two registers that kctx_new sets.
pub record Kctx : Type 0 where
  pub esp : ℕ
  pub eip : ℕ

pub record Kernel : Type 0 where
  pub vm : Vm
  pub thr : Threads
  pub kctx : ℕ → Kctx

-- The loop of tcb_init. It calls tcb_init_at_id with one argument, which the callee takes for the
-- CPU; what it takes for the thread, the word `junk pid` that lies next on the stack, is no value
-- of the program.
unfoldable pub tcb_init : (ℕ → ℕ) → Threads → ℕ → ℕ → Threads
tcb_init junk s zero pid = s
tcb_init junk s (suc rounds) pid = tcb_init junk (tcb_init_at_id s pid (junk pid)) rounds (pid + 1)

-- The loops of tqueue_init.
unfoldable pub tqueue_row : Threads → ℕ → ℕ → ℕ → Threads
tqueue_row s cpu zero chid = s
tqueue_row s cpu (suc rounds) chid = tqueue_row (tqueue_init_at_id s cpu chid) cpu rounds (chid + 1)

unfoldable pub tqueue_rows : Threads → ℕ → ℕ → Threads
tqueue_rows s zero cpu = s
tqueue_rows s (suc rounds) cpu = tqueue_rows (tqueue_row s cpu (num_ids + 1) 0) rounds (cpu + 1)

unfoldable pub thread_init : ℕ → List Row → (ℕ → ℕ) → ℕ → Kernel → Kernel
thread_init idptbl rows junk cpu k =
    let thr = record k.thr { ticks = λ i. if ltb i num_cpus then 0 else k.thr.ticks i } in
    let thr = tqueue_rows (tcb_init junk thr num_ids 0) num_cpus 0 in
    record k { vm = paging_init idptbl rows k.vm; thr = tcb_set_state (set_curid cpu thr 0) 0 run }

-- `kstack_hi` gives the top of each thread's kernel stack.
unfoldable pub kctx_new : (ℕ → ℕ) → Kernel → ℕ → ℕ → ℕ → ℕ × Kernel
kctx_new kstack_hi k entry id quota =
    let (pid, vm) = alloc_mem_quota k.vm id quota in
    (
      pid,
      record k { vm = vm; kctx = update k.kctx pid (record { esp = kstack_hi pid; eip = entry }) },
    )

module _ (cpu : ℕ) where
  unfoldable pub thread_spawn : (ℕ → ℕ) → Kernel → ℕ → ℕ → ℕ → ℕ × Kernel
  thread_spawn kstack_hi k entry id quota =
      let (pid, k') = kctx_new kstack_hi k entry id quota in
      (pid, record k' { thr = tqueue_enqueue cpu (tcb_set_state k'.thr pid ready) num_ids pid })

  unfoldable pub thread_yield : Threads → Threads
  thread_yield s =
      let old_cur_pid = get_curid cpu s in
      let s = tcb_set_state s old_cur_pid ready in
      let s = tqueue_enqueue cpu s num_ids old_cur_pid in
      let (new_cur_pid, s) = tqueue_dequeue cpu s num_ids in
      let s = tcb_set_state s new_cur_pid run in set_curid cpu s new_cur_pid

  -- `none` is the panic: there is no thread to switch to.
  unfoldable pub thread_exit : Threads → Option Threads
  thread_exit s =
      let (new_cur_pid, s') = tqueue_dequeue cpu s num_ids in
      if new_cur_pid == num_ids
      then none
      else some (set_curid cpu (tcb_set_state s' new_cur_pid run) new_cur_pid)

  -- What kern_main of kern/init/init.c does with the thread of the shell ahead of the switch to it.
  unfoldable pub start_shell : Threads → ℕ → Threads
  start_shell s pid =
      let s = tqueue_remove cpu s num_ids pid in
      let s = tcb_set_state s pid run in set_curid cpu s pid

  -- The timer's frequency is 1000 per second, so a tick is 1.
  unfoldable pub sched_update : Threads → Threads
  sched_update s =
      let t = u32 (s.ticks cpu + 1000 / 1000) in
      let counted = record s { ticks = update s.ticks cpu t } in
      if ltb sched_slice t
      then thread_yield (record s { ticks = update s.ticks cpu 0 })
      else counted

  -- thread_sleep up to the switch, and behind it, when the thread runs again.
  unfoldable pub thread_sleep : Threads → ℕ → Threads
  thread_sleep s chan =
      let curid = get_curid cpu s in
      let s = tcb_set_state s curid sleep in
      let s = tcb_set_chan s curid chan in
      let (new_cur_pid, s) = tqueue_dequeue cpu s num_ids in
      let s = tcb_set_state s new_cur_pid run in set_curid cpu s new_cur_pid

  unfoldable pub thread_sleep_resume : Threads → ℕ → Threads
  thread_sleep_resume s curid = tcb_set_chan s curid 0

  -- The test of one round of thread_wakeup.
  unfoldable pub sleeps_on : Threads → ℕ → ℕ → Bool
  sleeps_on s chan pid = (tcb_get_chan s pid == chan) && same_state (tcb_get_state s pid) sleep

  unfoldable pub wake_one : Threads → ℕ → Threads
  wake_one s pid = tqueue_enqueue cpu (tcb_set_chan (tcb_set_state s pid ready) pid 0) num_ids pid

  -- The loop of thread_wakeup from thread `pid`.
  unfoldable pub wake_from : Threads → ℕ → ℕ → ℕ → Threads
  wake_from s chan zero pid = s
  wake_from s chan (suc rounds) pid =
      wake_from (if sleeps_on s chan pid then wake_one s pid else s) chan rounds (pid + 1)

  unfoldable pub thread_wakeup : Threads → ℕ → Threads
  thread_wakeup s chan = wake_from s chan (num_ids - 1) 1
