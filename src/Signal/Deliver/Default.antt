-- ===== src/Signal/Deliver/Default.antt =====
-- The default action of a signal, and that no handler replaces it for SIGKILL.
use os_project_signal.Prelude.{
  ℕ, ◌<◌, ◌≡◌, ◌⊎◌, inl, inr, refl, ◌∙◌, sym, ap, subst, Option, none, some, List, ◌∷◌, arith,
}
use os_project_signal.Thread.Tcb.{Threads, dead, nsig, get_curid, tcb_set_state}
use os_project_signal.Thread.Sched.{Kernel, thread_exit}
use os_project_signal.Thread.Sched.Inv.{IsScheduled}
use os_project_signal.Thread.Sched.Laws.{thread_exit-IsScheduled}
use os_project_signal.Signal.State.{
  sigkill, tcb_get_sigaction, tcb_set_pending_signals, tcb_clear_pending_signal,
}
use os_project_signal.Signal.State.Pending.{in_range_eq}
use os_project_signal.Signal.Calls.{terminate}
use os_project_signal.Signal.Calls.Current.{
  terminate-running, set_pending-IsScheduled, current-set_pending,
}
use os_project_signal.Signal.Deliver.{terminate_process, die, handle_one}
use os_project_signal.Trap.Frame.{Frame}
use os_project_signal.Trap.Outcome.{Outcome, exits, panics}

module _ (cpu : ℕ) where
  -- The process `c` is gone: `x` runs in its place, `c` is dead and in no queue, and the memory is
  -- as in `k`.
  pub record Gone (ps : List ℕ) (k : Kernel) (c x : ℕ) (xs : List ℕ) (o : Outcome) : Type 0 where
    pub after : Kernel
    pub outcome : o ≡ exits after
    pub scheduled : IsScheduled ps cpu after.thr xs
    pub next_runs : after.thr.current cpu ≡ x
    pub is_dead : (after.thr.pool c).state ≡ dead
    pub same_memory : after.vm ≡ k.vm

  die-exits :
      (k : Kernel) (c : ℕ) (s' : Threads)
      → thread_exit cpu (terminate cpu k.thr c) ≡ some s'
      → die cpu k c ≡ exits (record k { thr = s' })
  unfolding die terminate_process
  die-exits k c s' e =
      ap
        (λ (o : Option Threads). elim o as (λ p. Outcome) [
          | none ↦ panics
          | some s ↦ exits (record k { thr = s })
        ])
        e

  die-Gone :
      {ps : List ℕ} (k : Kernel) (x : ℕ) (xs : List ℕ)
      → IsScheduled ps cpu k.thr (x ∷ xs)
      → Gone ps k (k.thr.current cpu) x xs (die cpu k (k.thr.current cpu))
  die-Gone k x xs v =
      let s = k.thr in
      let c = s.current cpu in
      let u = tcb_set_pending_signals s c 0 in
      let same = current-set_pending cpu s c 0 in
      let (s', e, sched, cur, gone) =
        thread_exit-IsScheduled cpu u x xs (set_pending-IsScheduled cpu s c 0 (x ∷ xs) v) in
      let e' : thread_exit cpu (tcb_set_state u c dead) ≡ some s' =
        subst (λ d. thread_exit cpu (tcb_set_state u d dead) ≡ some s') same e in
      record {
        after = record k { thr = s' };
        outcome =
            die-exits k c s'
              (ap (λ t. thread_exit cpu t) (terminate-running cpu s c v.running) ∙ e');
        scheduled = sched;
        next_runs = cur;
        is_dead = subst (λ d. (s'.pool d).state ≡ dead) same gone;
        same_memory = refl;
      }

  clear-IsScheduled :
      {ps : List ℕ} (s : Threads) (c n : ℕ) (xs : List ℕ)
      → n < nsig
      → IsScheduled ps cpu s xs
      → IsScheduled ps cpu (tcb_clear_pending_signal s c n) xs
  unfolding tcb_clear_pending_signal tcb_set_pending_signals
  clear-IsScheduled {ps} s c n xs h v = rw (in_range_eq n h) (keep _ v)
    where
      keep :
          (p : ℕ) → IsScheduled ps cpu s xs → IsScheduled ps cpu (tcb_set_pending_signals s c p) xs
      keep p v = set_pending-IsScheduled cpu s c p xs v

  current-clear :
      (s : Threads) (c n : ℕ) → (tcb_clear_pending_signal s c n).current cpu ≡ s.current cpu
  unfolding tcb_clear_pending_signal
  current-clear s c n = ground arith

  handler-clear :
      (s : Threads) (c n : ℕ)
      → ((tcb_clear_pending_signal s c n).pool c).sig.actions n ≡ (s.pool c).sig.actions n
  unfolding tcb_clear_pending_signal
  handler-clear s c n = ground arith

  cleared-sigaction :
      (s : Threads) (c n : ℕ)
      → n < nsig
      → tcb_get_sigaction (tcb_clear_pending_signal s c n) c n ≡ some ((s.pool c).sig.actions n)
  unfolding tcb_get_sigaction
  cleared-sigaction s c n h = rw (in_range_eq n h, handler-clear)

  handle_one-die :
      (kva : ℕ) (k : Kernel) (tf : Frame) (n : ℕ)
      → n < nsig
      → (n ≡ sigkill) ⊎ (((k.thr.pool (k.thr.current cpu)).sig.actions n).handler ≡ 0)
      → handle_one cpu kva k tf n
        ≡ die cpu
            (record k { thr = tcb_clear_pending_signal k.thr (k.thr.current cpu) n })
            (k.thr.current cpu)
  unfolding handle_one get_curid
  handle_one-die kva k tf n h (inl kill) = rw kill
  handle_one-die kva k tf n h (inr bare) =
      rw (cleared-sigaction k.thr (k.thr.current cpu) n h, bare) (ground arith)

  pub handle_one-dies :
      {ps : List ℕ} (kva : ℕ) (k : Kernel) (tf : Frame) (n x : ℕ) (xs : List ℕ)
      → IsScheduled ps cpu k.thr (x ∷ xs)
      → n < nsig
      → (n ≡ sigkill) ⊎ (((k.thr.pool (k.thr.current cpu)).sig.actions n).handler ≡ 0)
      → Gone ps k (k.thr.current cpu) x xs (handle_one cpu kva k tf n)
  handle_one-dies {ps} kva k tf n x xs v h why =
      let c = k.thr.current cpu in
      let k' = record k { thr = tcb_clear_pending_signal k.thr c n } in
      let same = current-clear k.thr c n in
      let g = die-Gone k' x xs (clear-IsScheduled k.thr c n (x ∷ xs) h v) in
      let g' = subst (λ d. Gone ps k' d x xs (die cpu k' d)) same g in
      let g'' = subst (λ o. Gone ps k' c x xs o) (sym (handle_one-die kva k tf n h why)) g' in
      record {
        after = g''.after;
        outcome = g''.outcome;
        scheduled = g''.scheduled;
        next_runs = g''.next_runs;
        is_dead = g''.is_dead;
        same_memory = g''.same_memory;
      }
