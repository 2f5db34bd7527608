-- ===== src/Thread/Sched/Spawn.antt =====
-- thread_spawn of kern/thread/PThread/PThread.c: the child joins the scheduled threads.
use os_project_signal.Prelude.{
  ℕ, ◌+◌, ◌*◌, ◌<◌, ◌≡◌, ◌≢◌, u32, refl, ◌∙◌, sym, ap, subst, false, List, [], ◌∷◌, ◌++◌, arith,
  mem, mem-append,
}
use os_project_signal.Pmm.Container.{num_ids, max_children, container_split}
use os_project_signal.Vmm.Map.{alloc_mem_quota}
use os_project_signal.Thread.Tcb.{Threads, ready, tcb_set_state}
use os_project_signal.Thread.Queue.{tqueue_enqueue}
use os_project_signal.Thread.Queue.Laws.{tqueue_enqueue-IsQueue}
use os_project_signal.Thread.Sched.{Kernel, kctx_new, thread_spawn}
use os_project_signal.Thread.Sched.Inv.{
  IsScheduled, IsQueue-frame, tqueue_enqueue-SameBlock, tqueue_enqueue-current,
}

module _ (cpu : ℕ) where
  -- Thread `pid` made ready and put at the end of the ready queue joins the threads that are
  -- scheduled.
  spawned :
      {ps : List ℕ} (s : Threads) (xs : List ℕ) (pid : ℕ)
      → IsScheduled ps cpu s xs
      → pid < num_ids
      → mem pid xs ≡ false
      → pid ≢ s.current cpu
      → IsScheduled
          (pid ∷ ps)
          cpu
          (tqueue_enqueue cpu (tcb_set_state s pid ready) num_ids pid)
          (xs ++ (pid ∷ []))
  unfolding tcb_set_state
  spawned s xs pid v lt out other =
      let t = tcb_set_state s pid ready in
      let q = IsQueue-frame cpu s t num_ids xs (λ a. ground arith) refl v.queue in
      let cur = ap (λ f. f cpu) (tqueue_enqueue-current cpu t num_ids pid 0) in
      record {
        queue = tqueue_enqueue-IsQueue cpu t num_ids pid xs q lt out;
        in_range = let r = v.in_range in ground arith;
        running =
            let r = v.running in
            let b = tqueue_enqueue-SameBlock cpu t num_ids pid (s.current cpu) in ground arith;
        only = λ j h r.
            let o = v.only j in
            let b = tqueue_enqueue-SameBlock cpu t num_ids pid j in ground arith;
        queued = λ j i.
            let a = v.queued j in
            let m = mem-append j xs (pid ∷ []) in
            let b = tqueue_enqueue-SameBlock cpu t num_ids pid j in ground arith;
        complete = λ j h r.
            let a = v.complete j in
            let m = mem-append j xs (pid ∷ []) in
            let b = tqueue_enqueue-SameBlock cpu t num_ids pid j in ground arith;
      }

  spawned-current :
      (s : Threads) (pid : ℕ)
      → (tqueue_enqueue cpu (tcb_set_state s pid ready) num_ids pid).current cpu ≡ s.current cpu
  unfolding tcb_set_state
  spawned-current s pid =
      ap (λ f. f cpu) (tqueue_enqueue-current cpu (tcb_set_state s pid ready) num_ids pid 0)

  -- The child that thread_spawn makes, from the number of the parent's children.
  spawn_child :
      (kstack_hi : ℕ → ℕ) (k : Kernel) (entry id quota : ℕ)
      → let nc = (k.vm.mem.box id).nchildren in
        let (pid, k') = thread_spawn cpu kstack_hi k entry id quota in
        (pid ≡ u32 (id * max_children + 1 + nc))
        × (k'.thr ≡ tqueue_enqueue cpu (tcb_set_state k.thr pid ready) num_ids pid)
        × (pid ≢ id → (k'.vm.mem.box id).nchildren ≡ u32 (nc + 1))
  unfolding thread_spawn kctx_new alloc_mem_quota container_split
  spawn_child kstack_hi k entry id quota = (refl, refl, λ ne. ground arith)

  -- A child of process 0, while it has fewer than two.
  pub spawn_next :
      {ps : List ℕ} (kstack_hi : ℕ → ℕ) (k : Kernel) (entry quota n : ℕ) (xs : List ℕ)
      → IsScheduled ps cpu k.thr xs
      → k.thr.current cpu ≡ 0
      → (k.vm.mem.box 0).nchildren ≡ n
      → n < 2
      → mem (n + 1) xs ≡ false
      → let (pid, k') = thread_spawn cpu kstack_hi k entry (k.thr.current cpu) quota in
        (pid ≡ n + 1)
        × IsScheduled ((n + 1) ∷ ps) cpu k'.thr (xs ++ ((n + 1) ∷ []))
        × (k'.thr.current cpu ≡ 0)
        × ((k'.vm.mem.box 0).nchildren ≡ n + 1)
  spawn_next {ps} kstack_hi k entry quota n xs v cur nc small out =
      let (pid_eq, thr_eq, nc') = spawn_child kstack_hi k entry 0 quota in
      let pid = (thread_spawn cpu kstack_hi k entry 0 quota).0 in
      let num : pid ≡ n + 1 = ground arith in
      let t = tqueue_enqueue cpu (tcb_set_state k.thr (n + 1) ready) num_ids (n + 1) in
      let thr : (thread_spawn cpu kstack_hi k entry 0 quota).1.thr ≡ t =
        thr_eq ∙ ap (λ z. tqueue_enqueue cpu (tcb_set_state k.thr z ready) num_ids z) num in
      rw cur (
        num,
        subst (λ u. IsScheduled ((n + 1) ∷ ps) cpu u (xs ++ ((n + 1) ∷ []))) (sym thr)
            (spawned k.thr xs (n + 1) v (omega arith) out (omega arith)),
        ap (λ (u : Threads). u.current cpu) thr ∙ spawned-current k.thr (n + 1) ∙ cur,
        nc' (omega arith) ∙ ground arith,
      )
