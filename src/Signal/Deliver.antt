-- ===== src/Signal/Deliver.antt =====
-- Delivery in kern/trap/TTrapHandler/TTrapHandler.c: deliver_signal, terminate_process and
-- handle_pending_signals.
pub mod Choice
pub mod Default
pub mod RoundTrip
use os_project_signal.Prelude.{
  ℕ, zero, suc, ◌+◌, ◌-◌, ◌*◌, ◌/◌, ◌^◌, ◌≡◌, Bool, true, false, Option, none, some, List, [], ◌∷◌,
  ◌++◌, bit_and, ◌==◌, if◌then◌else◌, sub32,
}
use os_project_signal.Vmm.Phys.{word_bytes}
use os_project_signal.Vmm.Table.{Vm}
use os_project_signal.Vmm.Copy.{pt_copyout}
use os_project_signal.Thread.Tcb.{Threads, SigAction, nsig, get_curid}
use os_project_signal.Thread.Sched.{Kernel, thread_exit}
use os_project_signal.Signal.State.{
  sigkill, tcb_get_sigaction, tcb_get_pending_signals, tcb_clear_pending_signal,
  tcb_set_signal_context,
}
use os_project_signal.Signal.Calls.{terminate}
use os_project_signal.Trap.Frame.{Frame}
use os_project_signal.Trap.Outcome.{Outcome, returns, exits, panics}

abbrev pub sys_sigreturn_nr : ℕ
sys_sigreturn_nr = 28

-- mov eax, SYS_sigreturn; int 0x30; jmp $; three nops
abbrev pub trampoline : List ℕ
trampoline =
    0xB8 ∷ sys_sigreturn_nr ∷ 0x00 ∷ 0x00 ∷ 0x00 ∷ 0xCD ∷ 0x30 ∷ 0xEB ∷ 0xFE ∷ 0x90 ∷ 0x90 ∷ 0x90
    ∷ []

-- The stack pointer of the handler.
abbrev pub new_esp : ℕ → ℕ
new_esp orig_esp = sub32 (sub32 (sub32 (sub32 (sub32 orig_esp 4) 4) 12 / 4 * 4) 4) 4

module _ (kva : ℕ) where
  -- The push of a word or of the trampoline below the stack pointer; what pt_copyout returns is
  -- not read.
  unfoldable pub push : Vm → ℕ → ℕ → List ℕ → ℕ → Vm
  push v pid esp bs len = (pt_copyout v kva bs pid esp len).1

  -- The stack that deliver_signal builds below `orig_esp`, with the addresses of what it saves.
  unfoldable pub build_stack : Vm → ℕ → ℕ → ℕ → ℕ → Vm
  build_stack v pid orig_esp orig_eip signum =
      let eip_addr = sub32 orig_esp 4 in
      let v = push v pid eip_addr (word_bytes orig_eip) 4 in
      let esp_addr = sub32 eip_addr 4 in
      let v = push v pid esp_addr (word_bytes orig_esp) 4 in
      let tramp_addr = sub32 esp_addr 12 in
      let v = push v pid tramp_addr trampoline 12 in
      let arg_addr = sub32 (tramp_addr / 4 * 4) 4 in
      let v = push v pid arg_addr (word_bytes signum) 4 in
      push v pid (sub32 arg_addr 4) (word_bytes tramp_addr) 4

module _ (cpu : ℕ) where
  unfoldable pub terminate_process : Threads → ℕ → Threads
  terminate_process s pid = terminate cpu s pid

  -- terminate_process, thread_exit, return
  unfoldable pub die : Kernel → ℕ → Outcome
  die k pid = elim (thread_exit cpu (terminate_process k.thr pid)) [
    | none ↦ panics
    | some s ↦ exits (record k { thr = s })
  ]

module _ (cpu kva : ℕ) where
  unfoldable pub deliver_signal : Kernel → Frame → ℕ → Kernel × Frame
  deliver_signal k tf signum =
      let cur_pid = get_curid cpu k.thr in
      elim (tcb_get_sigaction k.thr cur_pid signum) [
        | none ↦ (k, tf)
        | some sa ↦ if sa.handler == 0 then (k, tf) else (
          record k {
            vm = build_stack kva k.vm cur_pid tf.esp tf.eip signum;
            thr = tcb_set_signal_context k.thr cur_pid (sub32 (sub32 tf.esp 4) 4) (sub32 tf.esp 4);
          },
          record tf { esp = new_esp tf.esp; eip = sa.handler },
        )
      ]

  -- The body of the loop for a signal that is pending.
  unfoldable pub handle_one : Kernel → Frame → ℕ → Outcome
  handle_one k tf signum =
      let cur_pid = get_curid cpu k.thr in
      let k = record k { thr = tcb_clear_pending_signal k.thr cur_pid signum } in
      let (k', tf') = deliver_signal k tf signum in
      if signum == sigkill
      then die cpu k cur_pid
      else elim (tcb_get_sigaction k.thr cur_pid signum) [
        | none ↦ die cpu k cur_pid
        | some sa ↦ if sa.handler == 0 then die cpu k cur_pid else returns k' tf'
      ]

  -- The loop from `signum`, over the pending signals that were read before it. It ends at the
  -- first that is set.
  unfoldable pub handle_from : Kernel → Frame → ℕ → ℕ → ℕ → Outcome
  handle_from k tf pending zero signum = returns k tf
  handle_from k tf pending (suc rounds) signum =
      let rest = handle_from k tf pending rounds (signum + 1) in
      if bit_and pending (2 ^ signum) == 0 then rest else handle_one k tf signum

  unfoldable pub handle_pending_signals : Kernel → Frame → Outcome
  handle_pending_signals k tf =
      let pending = tcb_get_pending_signals k.thr (get_curid cpu k.thr) in
      if pending == 0 then returns k tf else handle_from k tf pending (nsig - 1) 1
