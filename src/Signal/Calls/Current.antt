-- ===== src/Signal/Calls/Current.antt =====
-- What becomes of the state that sys_pause and sys_kill give to the thread that runs.
use os_project_signal.Prelude.{
  ℕ, ◌≡◌, refl, ◌∙◌, sym, ap, fun_ext, true, false, List, [], ◌∷◌, ◌++◌, arith, mem, mem-append,
  subst,
}
use os_project_signal.Pmm.Container.{num_ids}
use os_project_signal.Thread.Tcb.{
  Threads, TState, ready, run, sleep, dead, same_state, tcb_get_state, tcb_set_state, get_curid,
}
use os_project_signal.Thread.Sched.{Kernel, thread_yield}
use os_project_signal.Thread.Sched.Inv.{IsScheduled, IsQueue-frame}
use os_project_signal.Thread.Sched.Laws.{thread_yield-IsScheduled}
use os_project_signal.Signal.State.{tcb_get_pending_signals, tcb_set_pending_signals}
use os_project_signal.Signal.Calls.{terminate, yield_to, sys_yield, sys_pause}
use os_project_signal.Trap.Frame.{Frame}

set_state_twice :
    (s : Threads) (c : ℕ) (t u : TState)
    → tcb_set_state (tcb_set_state s c t) c u ≡ tcb_set_state s c u
unfolding tcb_set_state
set_state_twice s c t u = ap (λ f. record s { pool = f }) (fun_ext λ j. ground arith)

module _ (cpu : ℕ) where
  current-set_state :
      (s : Threads) (c : ℕ) (t : TState) → (tcb_set_state s c t).current cpu ≡ s.current cpu
  unfolding tcb_set_state
  current-set_state s c t = refl

  -- thread_yield forgets the state of the thread that calls it.
  thread_yield-set_state :
      (s : Threads) (t : TState)
      → thread_yield cpu (tcb_set_state s (s.current cpu) t) ≡ thread_yield cpu s
  unfolding thread_yield get_curid
  thread_yield-set_state s t = rw (current-set_state s (s.current cpu) t, set_state_twice)

  -- sys_pause with no signal pending does just what sys_yield does: thread_yield sets the state
  -- back to ready, so the thread does not sleep until a signal comes.
  pub sys_pause-sys_yield :
      (k : Kernel) (tf : Frame)
      → (k.thr.pool (k.thr.current cpu)).sig.pending ≡ 0
      → sys_pause cpu k tf ≡ sys_yield cpu k tf
  unfolding sys_pause sys_yield yield_to get_curid tcb_get_pending_signals
  sys_pause-sys_yield k tf none_set = rw (
    none_set,
    thread_yield-set_state k.thr sleep,
    current-set_state k.thr (k.thr.current cpu) sleep,
  )

  running_not_ready : (t : TState) → t ≡ run → same_state t ready ≡ false
  running_not_ready t e = rw e

  pub terminate-running :
      (s : Threads) (c : ℕ)
      → (s.pool c).state ≡ run
      → terminate cpu s c ≡ tcb_set_state (tcb_set_pending_signals s c 0) c dead
  unfolding terminate tcb_get_state
  terminate-running s c r = rw (running_not_ready _ r) (swap s c)
    where
      swap :
          (s : Threads) (c : ℕ)
          → tcb_set_pending_signals (tcb_set_state s c dead) c 0
            ≡ tcb_set_state (tcb_set_pending_signals s c 0) c dead
      swap s c =
          unfold tcb_set_state tcb_set_pending_signals in
          ap (λ f. record s { pool = f }) (fun_ext λ j. ground arith)

  pub set_pending-IsScheduled :
      {ps : List ℕ} (s : Threads) (c p : ℕ) (xs : List ℕ)
      → IsScheduled ps cpu s xs
      → IsScheduled ps cpu (tcb_set_pending_signals s c p) xs
  unfolding tcb_set_pending_signals
  set_pending-IsScheduled s c p xs v =
      let same : (j : ℕ) → ((tcb_set_pending_signals s c p).pool j).state ≡ (s.pool j).state =
        λ j. ground arith in
      record {
        queue =
            IsQueue-frame cpu s (tcb_set_pending_signals s c p) num_ids xs (λ j. ground arith) refl
              v.queue;
        in_range = v.in_range;
        running = same (s.current cpu) ∙ v.running;
        only = λ j h r. v.only j h (sym (same j) ∙ r);
        queued = λ j i. same j ∙ v.queued j i;
        complete = λ j h r. v.complete j h (sym (same j) ∙ r);
      }

  pub current-set_pending :
      (s : Threads) (c p : ℕ) → (tcb_set_pending_signals s c p).current cpu ≡ s.current cpu
  unfolding tcb_set_pending_signals
  current-set_pending s c p = refl

  state-set_state : (s : Threads) (c : ℕ) (t : TState) → ((tcb_set_state s c t).pool c).state ≡ t
  unfolding tcb_set_state
  state-set_state s c t = ground arith

  -- SIGKILL to the thread that runs marks it as dead and leaves it running; when it yields next,
  -- it is ready again and queued behind the others.
  pub terminate-thread_yield :
      {ps : List ℕ} (s : Threads) (x : ℕ) (xs : List ℕ)
      → IsScheduled ps cpu s (x ∷ xs)
      → let c = s.current cpu in
        let t = terminate cpu s c in
        ((t.pool c).state ≡ dead)
        × (t.current cpu ≡ c)
        × IsScheduled ps cpu (thread_yield cpu t) (xs ++ (c ∷ []))
        × (((thread_yield cpu t).pool c).state ≡ ready)
  terminate-thread_yield {ps} s x xs v =
      let c = s.current cpu in
      let u = tcb_set_pending_signals s c 0 in
      let same = current-set_pending s c 0 in
      let yields : thread_yield cpu (tcb_set_state u c dead) ≡ thread_yield cpu u =
        subst (λ d. thread_yield cpu (tcb_set_state u d dead) ≡ thread_yield cpu u) same
          (thread_yield-set_state u dead) in
      let w =
        subst (λ d. IsScheduled ps cpu (thread_yield cpu u) (xs ++ (d ∷ []))) same
          (thread_yield-IsScheduled cpu u x xs (set_pending-IsScheduled s c 0 (x ∷ xs) v)).0 in
      let at_end : mem c (xs ++ (c ∷ [])) ≡ true = ground (arith, mem-append c xs (c ∷ [])) in
      rw (terminate-running s c v.running, yields)
        (state-set_state u c dead, current-set_state u c dead ∙ same, w, w.queued c at_end)
