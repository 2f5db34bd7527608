-- ===== src/Trap/Handler/Fault.antt =====
-- What a page fault leads to.
use os_project_signal.Prelude.{
  ℕ, ◌%◌, ◌<◌, ◌≡◌, ◌⊎◌, inr, refl, ◌∙◌, subst, bit_of_zero, ==_refl, sym, true, ◌&&◌, ◌||◌, some,
  List, ◌∷◌, arith, ◌==◌, ==-false, ltb,
}
use os_project_signal.Vmm.Table.{set_pdir_base}
use os_project_signal.Vmm.Copy.{vm_userlo}
use os_project_signal.Thread.Tcb.{Threads, nsig, get_curid}
use os_project_signal.Thread.Sched.{Kernel}
use os_project_signal.Thread.Sched.Inv.{IsScheduled}
use os_project_signal.Signal.State.{sigsegv, tcb_set_pending_signals, tcb_add_pending_signal}
use os_project_signal.Signal.State.Pending.{is_pending, is_pending-tcb_add_pending_signal}
use os_project_signal.Signal.Deliver.{handle_pending_signals}
use os_project_signal.Signal.Deliver.Choice.{handle_pending_signals-first}
use os_project_signal.Signal.Deliver.Default.{Gone, handle_one-dies}
use os_project_signal.Signal.Calls.Current.{set_pending-IsScheduled}
use os_project_signal.Trap.Frame.{Frame}
use os_project_signal.Trap.Outcome.{Outcome, returns}
use os_project_signal.Trap.Handler.{t_pgflt, pgflt_handler, exception_handler, trap_end, trap}

module _ (cpu : ℕ) where
  segv_pending :
      (s : Threads) (m : ℕ)
      → (s.pool (s.current cpu)).sig.pending ≡ 0
      → m < nsig
      → is_pending (tcb_add_pending_signal s (s.current cpu) sigsegv) (s.current cpu) m
        ≡ (m == sigsegv)
  segv_pending s m none_set h =
      let e =
        is_pending-tcb_add_pending_signal s (s.current cpu) sigsegv (omega arith) (s.current cpu) m
          h in
      rw (e, none_set, bit_of_zero m, ==_refl (s.current cpu)) (ground arith)

  pgflt_handler-segv :
      (fault_va : ℕ) (k : Kernel) (tf : Frame)
      → 0 < k.thr.current cpu
      → (tf.err % 2 ≡ 1) ⊎ (fault_va < vm_userlo)
      → pgflt_handler cpu fault_va k tf
        ≡ returns (record k { thr = tcb_add_pending_signal k.thr (k.thr.current cpu) sigsegv }) tf
  unfolding pgflt_handler get_curid
  pgflt_handler-segv fault_va k tf user bad =
      let test : (ltb 0 (k.thr.current cpu) && ((tf.err % 2 == 1) || ltb fault_va vm_userlo))
          ≡ true =
        ground arith in
      rw test refl

  add_segv-IsScheduled :
      {ps : List ℕ} (s : Threads) (c : ℕ) (xs : List ℕ)
      → IsScheduled ps cpu s xs
      → IsScheduled ps cpu (tcb_add_pending_signal s c sigsegv) xs
  unfolding tcb_add_pending_signal tcb_set_pending_signals
  add_segv-IsScheduled {ps} s c xs v = keep _ v
    where
      keep :
          (p : ℕ) → IsScheduled ps cpu s xs → IsScheduled ps cpu (tcb_set_pending_signals s c p) xs
      keep p v = set_pending-IsScheduled cpu s c p xs v

  trap_end-Gone :
      {ps : List ℕ} (kva p : ℕ) (k k' : Kernel) (tf : Frame) (c x : ℕ) (xs : List ℕ)
      → Gone cpu ps k' c x xs (handle_pending_signals cpu kva k tf)
      → (k0 : Kernel) → k'.vm ≡ k0.vm
      → Gone cpu ps k0 c x xs (trap_end cpu kva p k tf)
  unfolding trap_end
  trap_end-Gone kva p k k' tf c x xs g k0 e = record {
    after = g.after;
    outcome = rw (trap_end, g.outcome) refl;
    scheduled = g.scheduled;
    next_runs = g.next_runs;
    is_dead = g.is_dead;
    same_memory = g.same_memory ∙ e;
  }

  exception_handler-pgflt :
      (fault_va : ℕ) (k : Kernel) (tf : Frame)
      → tf.trapno ≡ t_pgflt
      → exception_handler cpu fault_va k tf ≡ pgflt_handler cpu fault_va k tf
  unfolding exception_handler
  exception_handler-pgflt fault_va k tf e = ground arith

  trap-returns :
      (kva : ℕ) (f : Kernel → Frame → Outcome) (k k' : Kernel) (tf : Frame)
      → f (record k { vm = set_pdir_base k.vm 0 }) tf ≡ returns k' tf
      → trap cpu kva (some f) k tf ≡ trap_end cpu kva (k.thr.current cpu) k' tf
  unfolding get_curid trap trap_end
  trap-returns kva f k k' tf e = rw e refl

  -- From a state with the scheduler invariant for the processes `ps` and a thread in the ready
  -- queue: a process other than 0, with no signal pending and no handler for SIGSEGV, that faults
  -- on a page that is there or on an address below user memory is gone at the end of trap: it is
  -- dead and in no queue, the first thread of the ready queue runs, and the invariant holds.
  pub trap-segv :
      {ps : List ℕ} (kva fault_va x : ℕ) (xs : List ℕ) (k : Kernel) (tf : Frame)
      → IsScheduled ps cpu k.thr (x ∷ xs)
      → tf.trapno ≡ t_pgflt
      → 0 < k.thr.current cpu
      → (tf.err % 2 ≡ 1) ⊎ (fault_va < vm_userlo)
      → (k.thr.pool (k.thr.current cpu)).sig.pending ≡ 0
      → ((k.thr.pool (k.thr.current cpu)).sig.actions sigsegv).handler ≡ 0
      → Gone cpu ps
          (record k { vm = set_pdir_base k.vm 0 })
          (k.thr.current cpu)
          x
          xs
          (trap cpu kva (some (exception_handler cpu fault_va)) k tf)
  unfolding tcb_add_pending_signal
  trap-segv {ps} kva fault_va x xs k tf v pf user bad none_set bare =
      let c = k.thr.current cpu in
      let k0 = record k { vm = set_pdir_base k.vm 0 } in
      let k1 = record k0 { thr = tcb_add_pending_signal k.thr c sigsegv } in
      let first =
        handle_pending_signals-first cpu kva k1 tf sigsegv (omega arith) (omega arith)
          (segv_pending k.thr sigsegv none_set (omega arith))
          (λ m a b.
            segv_pending k.thr m none_set (omega arith) ∙ ==-false m sigsegv (omega arith)) in
      let dies =
        handle_one-dies cpu kva k1 tf sigsegv x xs (add_segv-IsScheduled k.thr c (x ∷ xs) v)
          (omega arith) (inr (rw (==_refl c) bare)) in
      let gone = subst (λ o. Gone cpu ps k1 c x xs o) (sym first) dies in
      let ended = trap_end-Gone kva c k1 k1 tf c x xs gone k0 refl in
      let fault =
        exception_handler-pgflt fault_va k0 tf pf ∙ pgflt_handler-segv fault_va k0 tf user bad in
      subst (λ o. Gone cpu ps k0 c x xs o)
        (sym (trap-returns kva (exception_handler cpu fault_va) k k1 tf fault)) ended
