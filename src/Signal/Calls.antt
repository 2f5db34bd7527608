-- ===== src/Signal/Calls.antt =====
-- The signal system calls of kern/trap/TSyscall/TSyscall.c. `kva` is where the kernel's buffers
-- lie, which only the range tests of the copies read; `stale` is what the local `kern_act` holds
-- before a copy.
pub mod Kill
pub mod Current
use os_project_signal.Prelude.{
  ℕ, zero, suc, ◌+◌, ◌*◌, ◌≡◌, Bool, true, false, ◌||◌, not, Option, none, some, List, [], ◌∷◌,
  ◌++◌, ◌==◌, if◌then◌else◌, int_lt,
}
use os_project_signal.Pmm.Container.{num_ids}
use os_project_signal.Vmm.Phys.{word_bytes, word_of}
use os_project_signal.Vmm.Table.{Vm}
use os_project_signal.Vmm.Copy.{pt_copyin, pt_copyout}
use os_project_signal.Thread.Tcb.{
  Threads, TState, ready, run, sleep, dead, same_state, SigAction, nsig, tcb_get_state,
  tcb_set_state, tcb_is_sleeping, tcb_get_channel, get_curid,
}
use os_project_signal.Thread.Queue.{tqueue_remove}
use os_project_signal.Thread.Sched.{Kernel, thread_yield, thread_wakeup}
use os_project_signal.Signal.State.{
  sigkill, tcb_get_sigaction, tcb_set_sigaction, tcb_get_pending_signals, tcb_set_pending_signals,
  tcb_add_pending_signal, tcb_get_signal_context, tcb_clear_signal_context,
}
use os_project_signal.Trap.Frame.{
  Frame, syscall_get_arg2, syscall_get_arg3, syscall_get_arg4, syscall_set_errno, e_succ, e_mem,
  e_inval_addr, e_inval_pid, e_inval_signum,
}
use os_project_signal.Trap.Outcome.{Outcome, returns, switches}

-- A `struct sigaction` in memory: five words.
abbrev pub action_bytes : SigAction → List ℕ
action_bytes a =
    word_bytes a.handler
    ++ (word_bytes a.siginfo
        ++ (word_bytes a.flags ++ (word_bytes a.restorer ++ word_bytes a.mask)))

abbrev pub words_of : List ℕ → List ℕ
words_of (b ∷ c ∷ d ∷ e ∷ bs) = word_of b c d e ∷ words_of bs
words_of _ = []

-- What a copy of `bs` leaves in a variable that held `a`.
abbrev pub action_of : SigAction → List ℕ → SigAction
action_of a (h ∷ i ∷ f ∷ r ∷ m ∷ []) = record {
  handler = h;
  siginfo = i;
  flags = f;
  restorer = r;
  mask = m;
}
action_of a _ = a

abbrev pub word_or : ℕ → List ℕ → ℕ
word_or w (v ∷ _) = v
word_or w [] = w

-- `signum < 1 || signum >= NSIG`
abbrev pub bad_signum : ℕ → Bool
bad_signum signum = int_lt signum 1 || not (int_lt signum nsig)

module _ (cpu : ℕ) where
  -- What SIGKILL does to its target, in sys_kill and in terminate_process alike.
  unfoldable pub terminate : Threads → ℕ → Threads
  terminate s pid =
      let s =
        if same_state (tcb_get_state s pid) ready then tqueue_remove cpu s num_ids pid else s in
      let s = tcb_set_state s pid dead in tcb_set_pending_signals s pid 0

  -- A signal that is not SIGKILL is set as pending, and the target is woken up.
  unfoldable pub post : Threads → ℕ → ℕ → Threads
  post s pid signum =
      let s = tcb_add_pending_signal s pid signum in
      let chan = tcb_get_channel s pid in
      if tcb_is_sleeping s pid == 0 then s else if chan == 0 then s else thread_wakeup cpu s chan

  unfoldable pub sys_kill : Kernel → Frame → Outcome
  sys_kill k tf =
      let pid = syscall_get_arg2 tf in
      let signum = syscall_get_arg3 tf in
      if bad_signum signum
      then returns k (syscall_set_errno tf e_inval_signum)
      else if (int_lt pid 0 || not (int_lt pid num_ids))
          || same_state (tcb_get_state k.thr pid) dead
      then returns k (syscall_set_errno tf e_inval_pid)
      else if signum == sigkill
      then returns (record k { thr = terminate k.thr pid }) (syscall_set_errno tf e_succ)
      else returns (record k { thr = post k.thr pid signum }) (syscall_set_errno tf e_succ)

  -- A call of thread_yield from a handler that ends with the frame `tf`.
  unfoldable pub yield_to : Kernel → Threads → Frame → Outcome
  yield_to k s tf =
      let s' = thread_yield cpu s in
      if get_curid cpu s == get_curid cpu s'
      then returns (record k { thr = s' }) tf
      else switches (record k { thr = s' }) tf

  unfoldable pub sys_yield : Kernel → Frame → Outcome
  sys_yield k tf = yield_to k k.thr (syscall_set_errno tf e_succ)

  unfoldable pub sys_pause : Kernel → Frame → Outcome
  sys_pause k tf =
      let cur_pid = get_curid cpu k.thr in
      if tcb_get_pending_signals k.thr cur_pid == 0
      then yield_to k (tcb_set_state k.thr cur_pid sleep) (syscall_set_errno tf e_succ)
      else returns k (syscall_set_errno tf e_succ)

module _ (cpu kva : ℕ) where
  -- The copy of the old action to the process.
  unfoldable pub save_old : Kernel → ℕ → ℕ → Kernel
  save_old k signum user_oldact =
      let cur_pid = get_curid cpu k.thr in
      if user_oldact == 0 then k else elim (tcb_get_sigaction k.thr cur_pid signum) [
        | none ↦ k
        | some act ↦ record k {
          vm = (pt_copyout k.vm kva (action_bytes act) cur_pid user_oldact 20).1;
        }
      ]

  unfoldable pub install_new : SigAction → Kernel → ℕ → ℕ → Kernel
  install_new stale k signum user_act =
      let cur_pid = get_curid cpu k.thr in
      let (n, bs, vm) = pt_copyin k.vm cur_pid user_act kva 20 in
      let kern_act = action_of stale (words_of bs) in
      if user_act == 0
      then k
      else record k { vm = vm; thr = tcb_set_sigaction k.thr cur_pid signum kern_act }

  unfoldable pub sys_sigaction : SigAction → Kernel → Frame → Outcome
  sys_sigaction stale k tf =
      let signum = syscall_get_arg2 tf in
      let k' = save_old k signum (syscall_get_arg4 tf) in
      if bad_signum signum
      then returns k (syscall_set_errno tf e_inval_signum)
      else returns (install_new stale k' signum (syscall_get_arg3 tf)) (syscall_set_errno tf e_succ)

  unfoldable pub sys_sigreturn : Kernel → Frame → Outcome
  sys_sigreturn k tf =
      let cur_pid = get_curid cpu k.thr in
      let (saved_esp_addr, saved_eip_addr) = tcb_get_signal_context k.thr cur_pid in
      let (n, esp_bytes, vm) = pt_copyin k.vm cur_pid saved_esp_addr kva 4 in
      let (m, eip_bytes, vm') = pt_copyin vm cur_pid saved_eip_addr kva 4 in
      let restored = record tf {
        esp = word_or 0 (words_of esp_bytes);
        eip = word_or 0 (words_of eip_bytes);
      } in
      if (saved_esp_addr == 0) || (saved_eip_addr == 0)
      then returns k (syscall_set_errno tf e_inval_addr)
      else if not (n == 4)
      then returns (record k { vm = vm }) (syscall_set_errno tf e_mem)
      else if not (m == 4)
      then returns (record k { vm = vm' }) (syscall_set_errno tf e_mem)
      else returns (record k { vm = vm'; thr = tcb_clear_signal_context k.thr cur_pid })
          (syscall_set_errno restored e_succ)
