-- ===== src/Tests/Signals.antt =====
-- Signals.
use os_project_signal.Prelude.{
  ℕ, ◌+◌, ◌^◌, ◌≤◌, ◌<◌, ◌≡◌, inl, inr, refl, true, false, some, [], ◌∷◌, arith, ◌==◌,
  if◌then◌else◌, bit_of_zero, Bool-cases,
}
use os_project_signal.Pmm.Container.{Container}
use os_project_signal.Thread.Tcb.{dead, nsig, empty_sig, no_action}
use os_project_signal.Thread.Sched.{Kernel}
use os_project_signal.Thread.Sched.Inv.{IsScheduled}
use os_project_signal.Signal.State.{tcb_clear_signal_context}
use os_project_signal.Signal.State.Pending.{is_pending}
use os_project_signal.Signal.Calls.{terminate, sys_sigreturn}
use os_project_signal.Signal.Calls.Kill.{terminate-IsScheduled}
use os_project_signal.Signal.Deliver.{deliver_signal, handle_one, handle_pending_signals}
use os_project_signal.Signal.Deliver.Choice.{handle_pending_signals-first}
use os_project_signal.Signal.Deliver.Default.{Gone}
use os_project_signal.Trap.Frame.{Frame, syscall_set_errno, e_succ}
use os_project_signal.Trap.Outcome.{returns}
use os_project_signal.Signal.Deliver.RoundTrip.{IsStack, sys_sigreturn-deliver_signal}
use os_project_signal.Vmm.Phys.{read_word}
use os_project_signal.Tests.State.{processes, threads, threads-IsScheduled}
use os_project_signal.Tests.Memory.{tables, pages, memory}
use os_project_signal.Vmm.Table.{
  set_pdir_base, get_pdir_entry, get_ptbl_entry, get_ptbl_entry_by_va,
}
use os_project_signal.Trap.Handler.{exception_handler, trap}
use os_project_signal.Trap.Handler.Fault.{trap-segv}

abbrev pub kernel : Kernel
kernel = record { vm = tables pages; thr = threads; kctx = λ pid. record { esp = 0; eip = 0 } }

-- Thread 1 with the signals 3 and 9 pending.
abbrev signalled : Kernel
signalled = record kernel {
  thr = record threads {
    pool = λ pid.
        if pid == 1
        then record (threads.pool 1) { sig = record empty_sig { pending = 2 ^ 3 + 2 ^ 9 } }
        else threads.pool pid;
  };
}

-- sys_kill(4, SIGKILL)
abbrev pub frame : Frame
frame = record {
  edi = 0;
  esi = 0;
  ebp = 0;
  oesp = 0;
  ebx = 4;
  edx = 0;
  ecx = 9;
  eax = 0;
  es = 0;
  ds = 0;
  trapno = 48;
  err = 0;
  eip = 0x40000100;
  cs = 0;
  eflags = 0;
  esp = 0x40001100;
  ss = 0;
}

terminate-IsScheduled_example :
    IsScheduled processes 0 (terminate 0 threads 3) (2 ∷ [])
    × (((terminate 0 threads 3).pool 3).state ≡ dead)
    × (((terminate 0 threads 3).pool 3).sig.pending ≡ 0)
terminate-IsScheduled_example =
    terminate-IsScheduled 0 threads (2 ∷ 3 ∷ []) 3 threads-IsScheduled refl (omega arith)

three_pending : is_pending signalled.thr 1 3 ≡ true
three_pending = ground arith

none_lower : (m : ℕ) → 1 ≤ m → m < 3 → is_pending signalled.thr 1 m ≡ false
none_lower m a b = elim (Bool-cases (m == 1)) [
  | inl e ↦ let e' : m ≡ 1 = ground arith in rw e' refl
  | inr n ↦ let e' : m ≡ 2 = ground arith in rw e' refl
]

handle_pending_signals-first_example :
    handle_pending_signals 0 0x8000 signalled frame ≡ handle_one 0 0x8000 signalled frame 3
handle_pending_signals-first_example =
    handle_pending_signals-first 0 0x8000 signalled frame 3 (omega arith) (omega arith)
      three_pending none_lower

none_set : (m : ℕ) → 1 ≤ m → m < nsig → is_pending threads 1 m ≡ false
none_set m a b = rw (bit_of_zero m) refl

-- A page fault on a page that is there.
abbrev fault_frame : Frame
fault_frame = record frame { trapno = 14; err = 1 }

trap-segv_example :
    Gone 0 processes
      (record kernel { vm = set_pdir_base (tables pages) 0 })
      1
      2
      (3 ∷ [])
      (trap 0 0x8000 (some (exception_handler 0 0x40001000)) kernel fault_frame)
trap-segv_example =
    trap-segv 0 0x8000 0x40001000 2 (3 ∷ []) kernel fault_frame threads-IsScheduled refl
      (omega arith) (inl (omega arith)) refl refl

abbrev memory_of_process : Container
memory_of_process = record { quota = 10; usage = 1; parent = 0; nchildren = 0; used = 1 }

-- Process 1, below its quota, faults on a page that is not there.
abbrev faulting : Kernel
faulting = record kernel {
  vm = record (tables pages) { mem = record (memory pages) { box = λ id. memory_of_process } };
}

-- Thread 1 with a handler for each signal.
abbrev handling : Kernel
handling = record kernel {
  thr = record threads {
    pool = λ pid.
        if pid == 1
        then record (threads.pool 1) {
          sig = record empty_sig { actions = λ n. record no_action { handler = 0x40000500 } };
        }
        else threads.pool pid;
  };
}

handling-IsStack : IsStack (tables pages) 0x8000 1 0x400010E4
unfolding get_ptbl_entry_by_va get_pdir_entry get_ptbl_entry read_word
handling-IsStack = record {
  one_page = omega arith;
  above = omega arith;
  below = omega arith;
  aligned = omega arith;
  buffer = omega arith;
  present = refl;
  apart = inr (omega arith);
}

sys_sigreturn-deliver_signal_example :
    let k' = (deliver_signal 0 0x8000 handling frame 10).0 in
    sys_sigreturn 0 0x8000 k' fault_frame
    ≡ returns
        (record k' { thr = tcb_clear_signal_context k'.thr 1 })
        (syscall_set_errno (record fault_frame { esp = 0x40001100; eip = 0x40000100 }) e_succ)
sys_sigreturn-deliver_signal_example =
    sys_sigreturn-deliver_signal 0 0x8000 handling frame fault_frame 10 0x400010E4 (omega arith)
      (omega arith) refl (omega arith) handling-IsStack
