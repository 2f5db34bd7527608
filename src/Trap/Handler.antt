-- ===== src/Trap/Handler.antt =====
-- kern/trap/TTrapHandler/TTrapHandler.c: the page fault, exception and interrupt handlers, and trap
-- itself. `fault_va` is what rcr2 reads, `ide_intr` the interrupt routine of the disk driver, and
-- `handler` the entry of TRAP_HANDLER for the trap, none for a null pointer.
pub mod Fault
use os_project_signal.Prelude.{
  ℕ, ◌+◌, ◌%◌, ◌<◌, ◌≡◌, Bool, true, false, ◌&&◌, ◌||◌, Option, none, some, arith, ◌==◌,
  if◌then◌else◌, ltb,
}
use os_project_signal.Vmm.Table.{Vm, perm_ptu, magic_number, set_pdir_base}
use os_project_signal.Vmm.Map.{alloc_page}
use os_project_signal.Vmm.Copy.{vm_userlo}
use os_project_signal.Thread.Tcb.{get_curid}
use os_project_signal.Thread.Sched.{Kernel, sched_update}
use os_project_signal.Signal.State.{sigsegv, tcb_add_pending_signal}
use os_project_signal.Signal.Deliver.{handle_pending_signals}
use os_project_signal.Trap.Frame.{Frame}
use os_project_signal.Trap.Outcome.{Outcome, returns, switches, exits, panics}

-- `T_IRQ0 + IRQ_SPURIOUS` and so on
abbrev pub t_pgflt : ℕ
t_pgflt = 14

abbrev pub t_timer : ℕ
t_timer = 32

abbrev pub t_ide1 : ℕ
t_ide1 = 46

module _ (cpu : ℕ) where
  unfoldable pub pgflt_handler : ℕ → Kernel → Frame → Outcome
  pgflt_handler fault_va k tf =
      let cur_pid = get_curid cpu k.thr in
      let protection = tf.err % 2 == 1 in
      let (r, vm) = alloc_page k.vm cur_pid fault_va perm_ptu in
      if ltb 0 cur_pid && (protection || ltb fault_va vm_userlo)
      then returns (record k { thr = tcb_add_pending_signal k.thr cur_pid sigsegv }) tf
      else if protection
      then panics
      else if r == magic_number
      then panics
      else returns (record k { vm = vm }) tf

  -- default_exception_handler panics.
  unfoldable pub exception_handler : ℕ → Kernel → Frame → Outcome
  exception_handler fault_va k tf =
      if tf.trapno == t_pgflt then pgflt_handler fault_va k tf else panics

  unfoldable pub timer_intr_handler : Kernel → Frame → Outcome
  timer_intr_handler k tf =
      let s' = sched_update cpu k.thr in
      if get_curid cpu k.thr == get_curid cpu s'
      then returns (record k { thr = s' }) tf
      else switches (record k { thr = s' }) tf

  -- A spurious interrupt, the second disk's and those of default_intr_handler change nothing here.
  unfoldable pub interrupt_handler : (Kernel → Kernel) → Kernel → Frame → Outcome
  interrupt_handler ide_intr k tf =
      if tf.trapno == t_timer
      then timer_intr_handler k tf
      else if tf.trapno == t_ide1
      then returns (ide_intr k) tf
      else returns k tf

module _ (cpu kva : ℕ) where
  -- The part of trap behind the handler, on the stack of thread `cur_pid`.
  unfoldable pub trap_end : ℕ → Kernel → Frame → Outcome
  trap_end cur_pid k tf = elim (handle_pending_signals cpu kva k tf) [
    | returns k' tf' ↦ returns (record k' { vm = set_pdir_base k'.vm cur_pid }) tf'
    | switches k' tf' ↦ switches k' tf'
    | exits k' ↦ exits k'
    | panics ↦ panics
  ]

  -- trap up to its end or to the switch to another thread; a thread that was switched away from
  -- goes on with trap_end.
  unfoldable pub trap : Option (Kernel → Frame → Outcome) → Kernel → Frame → Outcome
  trap handler k tf =
      let cur_pid = get_curid cpu k.thr in
      let k = record k { vm = set_pdir_base k.vm 0 } in
      elim handler [
        | none ↦ trap_end cur_pid k tf
        | some f ↦ elim (f k tf) [
          | returns k' tf' ↦ trap_end cur_pid k' tf'
          | switches k' tf' ↦ switches k' tf'
          | exits k' ↦ exits k'
          | panics ↦ panics
        ]
      ]
