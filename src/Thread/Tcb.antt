-- ===== src/Thread/Tcb.antt =====
-- The thread control blocks of kern/thread/PTCBIntro/PTCBIntro.c, with the signal state of
-- kern/lib/signal.h, the queue ends of kern/thread/PTQueueIntro/PTQueueIntro.c and the current
-- thread of kern/thread/PCurID/PCurID.c. Pointers are numbers, NULL is 0. What get_pcpu_idx
-- returns is the argument `cpu`.
use os_project_signal.Prelude.{ℕ, Bool, true, false, if◌then◌else◌, update}
use os_project_signal.Pmm.Container.{num_ids}

-- `t_state`
pub data TState : Type 0 where
  ready run sleep dead : TState

abbrev pub same_state : TState → TState → Bool
same_state ready ready = true
same_state run run = true
same_state sleep sleep = true
same_state dead dead = true
same_state _ _ = false

abbrev pub nsig : ℕ
nsig = 32

-- `struct sigaction`
pub record SigAction : Type 0 where
  pub handler : ℕ
  pub siginfo : ℕ
  pub flags : ℕ
  pub restorer : ℕ
  pub mask : ℕ

abbrev pub no_action : SigAction
no_action = record { handler = 0; siginfo = 0; flags = 0; restorer = 0; mask = 0 }

-- `struct sig_state`
pub record SigState : Type 0 where
  pub actions : ℕ → SigAction
  pub pending : ℕ
  pub block_mask : ℕ
  pub saved_esp_addr : ℕ
  pub saved_eip_addr : ℕ
  pub in_handler : ℕ

-- `struct TCB`
pub record Tcb : Type 0 where
  pub state : TState
  pub prev : ℕ
  pub next : ℕ
  pub channel : ℕ
  pub openfiles : ℕ → ℕ
  pub cwd : ℕ
  pub sig : SigState

-- `struct TQueue`
pub record TQueue : Type 0 where
  pub head : ℕ
  pub tail : ℕ

-- TCBPool, TQueuePool, CURID and sched_ticks.
pub record Threads : Type 0 where
  pub pool : ℕ → Tcb
  pub queues : ℕ → ℕ → TQueue
  pub current : ℕ → ℕ
  pub ticks : ℕ → ℕ

abbrev pub set_tcb : Threads → ℕ → Tcb → Threads
set_tcb s pid t = record s { pool = update s.pool pid t }

module _ (s : Threads) (pid : ℕ) where
  unfoldable pub tcb_get_state : TState
  tcb_get_state = (s.pool pid).state

  unfoldable pub tcb_set_state : TState → Threads
  tcb_set_state state = set_tcb s pid (record (s.pool pid) { state = state })

  unfoldable pub tcb_get_prev : ℕ
  tcb_get_prev = (s.pool pid).prev

  unfoldable pub tcb_set_prev : ℕ → Threads
  tcb_set_prev prev_pid = set_tcb s pid (record (s.pool pid) { prev = prev_pid })

  unfoldable pub tcb_get_next : ℕ
  tcb_get_next = (s.pool pid).next

  unfoldable pub tcb_set_next : ℕ → Threads
  tcb_set_next next_pid = set_tcb s pid (record (s.pool pid) { next = next_pid })

  unfoldable pub tcb_get_chan : ℕ
  tcb_get_chan = (s.pool pid).channel

  unfoldable pub tcb_set_chan : ℕ → Threads
  tcb_set_chan chan = set_tcb s pid (record (s.pool pid) { channel = chan })

  unfoldable pub tcb_get_openfiles : ℕ → ℕ
  tcb_get_openfiles = (s.pool pid).openfiles

  unfoldable pub tcb_set_openfiles : ℕ → ℕ → Threads
  tcb_set_openfiles fd f =
      set_tcb s pid (record (s.pool pid) { openfiles = update (s.pool pid).openfiles fd f })

  unfoldable pub tcb_get_cwd : ℕ
  tcb_get_cwd = (s.pool pid).cwd

  unfoldable pub tcb_set_cwd : ℕ → Threads
  tcb_set_cwd d = set_tcb s pid (record (s.pool pid) { cwd = d })

  unfoldable pub tcb_is_sleeping : ℕ
  tcb_is_sleeping = if same_state (s.pool pid).state sleep then 1 else 0

  unfoldable pub tcb_get_channel : ℕ
  tcb_get_channel = (s.pool pid).channel

-- The block that tcb_init_at_id leaves.
abbrev pub empty_sig : SigState
empty_sig = record {
  actions = λ n. no_action;
  pending = 0;
  block_mask = 0;
  saved_esp_addr = 0;
  saved_eip_addr = 0;
  in_handler = 0;
}

abbrev pub empty_tcb : Tcb
empty_tcb = record {
  state = dead;
  prev = num_ids;
  next = num_ids;
  channel = 0;
  openfiles = λ fd. 0;
  cwd = 0;
  sig = empty_sig;
}

-- The definition's first parameter, the CPU, is not read.
unfoldable pub tcb_init_at_id : Threads → ℕ → ℕ → Threads
tcb_init_at_id s cpu_idx pid = set_tcb s pid empty_tcb

-- The queue ends of the CPU.
abbrev pub set_queue : Threads → ℕ → ℕ → TQueue → Threads
set_queue s cpu chid q = record s { queues = update s.queues cpu (update (s.queues cpu) chid q) }

module _ (cpu : ℕ) (s : Threads) where
  unfoldable pub tqueue_get_head : ℕ → ℕ
  tqueue_get_head chid = (s.queues cpu chid).head

  unfoldable pub tqueue_set_head : ℕ → ℕ → Threads
  tqueue_set_head chid head = set_queue s cpu chid (record (s.queues cpu chid) { head = head })

  unfoldable pub tqueue_get_tail : ℕ → ℕ
  tqueue_get_tail chid = (s.queues cpu chid).tail

  unfoldable pub tqueue_set_tail : ℕ → ℕ → Threads
  tqueue_set_tail chid tail = set_queue s cpu chid (record (s.queues cpu chid) { tail = tail })

  unfoldable pub get_curid : ℕ
  get_curid = s.current cpu

  unfoldable pub set_curid : ℕ → Threads
  set_curid curid = record s { current = update s.current cpu curid }

unfoldable pub tqueue_init_at_id : Threads → ℕ → ℕ → Threads
tqueue_init_at_id s cpu_idx chid =
    set_queue s cpu_idx chid (record { head = num_ids; tail = num_ids })
