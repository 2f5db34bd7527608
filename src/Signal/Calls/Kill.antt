-- ===== src/Signal/Calls/Kill.antt =====
-- What a signal does to its target: SIGKILL, and the posting of any other.
use os_project_signal.Prelude.{
  ℕ, ◌^◌, ◌≤◌, ◌<◌, ◌≡◌, ◌≢◌, ◌⊎◌, refl, ◌∙◌, sym, ap, Bool, true, false, ◌||◌, not, List, arith,
  ◌==◌, if◌then◌else◌, int_lt, mem, erase, mem-erase, erase_of_not_mem, Bool-cases, inl, inr,
  ==-false, ==_refl,
}
use os_project_signal.Pmm.Container.{num_ids}
use os_project_signal.Thread.Tcb.{
  Threads, TState, ready, run, sleep, dead, same_state, nsig, tcb_get_state, tcb_set_state,
}
use os_project_signal.Thread.Queue.{tqueue_remove}
use os_project_signal.Thread.Queue.Laws.{IsQueue}
use os_project_signal.Thread.Queue.Remove.{tqueue_remove-IsQueue}
use os_project_signal.Thread.Sched.{Kernel}
use os_project_signal.Thread.Sched.Inv.{
  IsScheduled, SameBlock, IsQueue-frame, tqueue_remove-SameBlock, tqueue_remove-current,
}
use os_project_signal.Signal.State.{sigkill, tcb_set_pending_signals}
use os_project_signal.Signal.Calls.{bad_signum, terminate, post, sys_kill}
use os_project_signal.Trap.Frame.{
  Frame, syscall_get_arg2, syscall_get_arg3, syscall_set_errno, e_succ, e_inval_pid, e_inval_signum,
}
use os_project_signal.Trap.Outcome.{returns}

module _ (cpu : ℕ) where
  -- The queue without its target.
  unqueued : Threads → ℕ → Threads
  unqueued s pid =
      if same_state (tcb_get_state s pid) ready then tqueue_remove cpu s num_ids pid else s

  unqueued-SameBlock : (s : Threads) (pid j : ℕ) → SameBlock ((unqueued s pid).pool j) (s.pool j)
  unfolding unqueued
  unqueued-SameBlock s pid j =
      elim (same_state (tcb_get_state s pid) ready)
        as (λ b. SameBlock ((if b then tqueue_remove cpu s num_ids pid else s).pool j) (s.pool j)) [
          | true ↦ tqueue_remove-SameBlock cpu s num_ids pid j
          | false ↦ record {
            state_eq = refl;
            channel_eq = refl;
            sig_eq = refl;
            cwd_eq = refl;
            files_eq = refl;
          }
        ]

  unqueued-current : (s : Threads) (pid : ℕ) → (unqueued s pid).current ≡ s.current
  unfolding unqueued
  unqueued-current s pid = ground (arith, tqueue_remove-current cpu s num_ids pid 0)

  is_ready_eq : (t : TState) → same_state t ready ≡ true → t ≡ ready
  is_ready_eq ready h = refl
  is_ready_eq run h = absurd (cc)
  is_ready_eq sleep h = absurd (cc)
  is_ready_eq dead h = absurd (cc)

  ready_test : (t : TState) → t ≡ ready → same_state t ready ≡ true
  ready_test t e = rw e

  unqueued-IsQueue :
      {ps : List ℕ} (s : Threads) (xs : List ℕ) (pid : ℕ)
      → mem pid ps ≡ true
      → IsScheduled ps cpu s xs
      → IsQueue cpu (unqueued s pid) num_ids (erase pid xs)
  unfolding unqueued tcb_get_state
  unqueued-IsQueue s xs pid lt v = elim (Bool-cases (same_state (s.pool pid).state ready)) [
    | inl is_ready ↦ rw is_ready (
        tqueue_remove-IsQueue cpu s num_ids pid xs v.queue
          (v.complete pid lt (is_ready_eq _ is_ready)))
    | inr other ↦ rw (other, erase_of_not_mem pid xs (not_queued (mem pid xs) refl other)) v.queue
  ]
    where
      not_queued :
          (b : Bool) → mem pid xs ≡ b → same_state (s.pool pid).state ready ≡ false → b ≡ false
      not_queued true i other = let e = ready_test _ (v.queued pid i) in cc
      not_queued false i other = refl

  module _ (s : Threads) (pid j : ℕ) where
    terminate-block :
        (((terminate cpu s pid).pool j).prev ≡ ((unqueued s pid).pool j).prev)
        × (((terminate cpu s pid).pool j).next ≡ ((unqueued s pid).pool j).next)
        × (((terminate cpu s pid).pool j).state
            ≡ (if pid == j then dead else ((unqueued s pid).pool j).state))
        × (((terminate cpu s pid).pool j).sig.pending
            ≡ (if pid == j then 0 else ((unqueued s pid).pool j).sig.pending))
    unfolding terminate unqueued tcb_set_state tcb_set_pending_signals
    terminate-block = ground arith

  terminate-queues :
      (s : Threads) (pid : ℕ) → (terminate cpu s pid).queues ≡ (unqueued s pid).queues
  unfolding terminate unqueued tcb_set_state tcb_set_pending_signals
  terminate-queues s pid = refl

  terminate-current : (s : Threads) (pid : ℕ) → (terminate cpu s pid).current ≡ s.current
  unfolding terminate tcb_set_state tcb_set_pending_signals
  terminate-current s pid = unfold unqueued in unqueued-current s pid

  -- From a state with the scheduler invariant for the processes `ps`, one of them that is not the
  -- current thread is dead after SIGKILL, has no pending signals and is out of the ready queue; the
  -- other threads stay in the queue in their order, and the invariant holds.
  pub terminate-IsScheduled :
      {ps : List ℕ} (s : Threads) (xs : List ℕ) (pid : ℕ)
      → IsScheduled ps cpu s xs
      → mem pid ps ≡ true
      → pid ≢ s.current cpu
      → IsScheduled ps cpu (terminate cpu s pid) (erase pid xs)
        × (((terminate cpu s pid).pool pid).state ≡ dead)
        × (((terminate cpu s pid).pool pid).sig.pending ≡ 0)
  terminate-IsScheduled {ps} s xs pid v lt other =
      let cur = ap (λ f. f cpu) (terminate-current s pid) in
      let state : (j : ℕ)
          → ((terminate cpu s pid).pool j).state ≡ (if pid == j then dead else (s.pool j).state) =
        λ j.
          (terminate-block s pid j).2
          ∙ ap (λ (t : TState). if pid == j then dead else t)
              (unqueued-SameBlock s pid j).state_eq in
      (
        record {
          queue =
              IsQueue-frame cpu (unqueued s pid) (terminate cpu s pid) num_ids (erase pid xs)
                (λ a. ((terminate-block s pid a).0, (terminate-block s pid a).1))
                (terminate-queues s pid) (unqueued-IsQueue s xs pid lt v);
          in_range = rw cur v.in_range;
          running =
              rw cur (state (s.current cpu) ∙ rw (==-false pid (s.current cpu) other) v.running);
          only = λ j h r. v.only j h (still_run j (sym (state j) ∙ r)) ∙ sym cur;
          queued = λ j i. state j ∙ still_ready j (sym (mem-erase j pid xs v.queue.distinct) ∙ i);
          complete =
              λ j h r. mem-erase j pid xs v.queue.distinct ∙ still_queued j h (sym (state j) ∙ r);
        },
        state pid ∙ rw ==_refl,
        (terminate-block s pid pid).3 ∙ rw ==_refl,
      )
    where
      still_run :
          (j : ℕ) → (if pid == j then dead else (s.pool j).state) ≡ run → (s.pool j).state ≡ run
      still_run j e = ground arith

      still_ready :
          (j : ℕ)
          → (if j == pid then false else mem j xs) ≡ true
          → (if pid == j then dead else (s.pool j).state) ≡ ready
      still_ready j e = let a = v.queued j in ground arith

      still_queued :
          (j : ℕ)
          → mem j ps ≡ true
          → (if pid == j then dead else (s.pool j).state) ≡ ready
          → (if j == pid then false else mem j xs) ≡ true
      still_queued j h e = let a = v.complete j h in ground arith

  module _ (k : Kernel) (tf : Frame) where
    -- sys_kill refuses a signal number that is not from 1 to 31, and then a target that is out of
    -- range or dead, with the error of each, and changes nothing; it terminates the target of
    -- SIGKILL, and posts any other signal. The numbers are those of 32-bit words.
    pub sys_kill_lem :
        tf.ebx < 2 ^ 32
        → tf.ecx < 2 ^ 32
        → let pid = tf.ebx in
          let n = tf.ecx in
          ((n ≡ 0) ⊎ (nsig ≤ n)
            → sys_kill cpu k tf ≡ returns k (syscall_set_errno tf e_inval_signum))
          × (0 < n
              → n < nsig
              → num_ids ≤ pid ⊎ ((k.thr.pool pid).state ≡ dead)
              → sys_kill cpu k tf ≡ returns k (syscall_set_errno tf e_inval_pid))
          × (0 < n
              → n < nsig
              → pid < num_ids
              → (k.thr.pool pid).state ≢ dead
              → sys_kill cpu k tf
                ≡ returns
                    (record k {
                      thr = if n == sigkill then terminate cpu k.thr pid else post cpu k.thr pid n;
                    })
                    (syscall_set_errno tf e_succ))
    unfolding sys_kill tcb_get_state syscall_get_arg2 syscall_get_arg3
    sys_kill_lem hp hn = (
      λ bad. rw (refused _ hn bad),
      λ a b gone. rw (accepted _ hn a b, missing gone),
      λ a b c d. rw (accepted _ hn a b, present c (alive _ d)) (chosen (tf.ecx == sigkill)),
    )
      where
        refused : (n : ℕ) → n < 2 ^ 32 → (n ≡ 0) ⊎ (nsig ≤ n) → bad_signum n ≡ true
        refused n h e = ground arith

        accepted : (n : ℕ) → n < 2 ^ 32 → 0 < n → n < nsig → bad_signum n ≡ false
        accepted n h a b = ground arith

        gone_test : (t : TState) → t ≡ dead → same_state t dead ≡ true
        gone_test t e = rw e

        alive : (t : TState) → t ≢ dead → same_state t dead ≡ false
        alive ready ne = refl
        alive run ne = refl
        alive sleep ne = refl
        alive dead ne = absurd (ne refl)

        missing :
            num_ids ≤ tf.ebx ⊎ ((k.thr.pool tf.ebx).state ≡ dead)
            → ((int_lt tf.ebx 0 || not (int_lt tf.ebx num_ids))
                || same_state (k.thr.pool tf.ebx).state dead)
              ≡ true
        missing (inl big) = ground arith
        missing (inr e) = let t = gone_test _ e in ground arith

        present :
            tf.ebx < num_ids
            → same_state (k.thr.pool tf.ebx).state dead ≡ false
            → ((int_lt tf.ebx 0 || not (int_lt tf.ebx num_ids))
                || same_state (k.thr.pool tf.ebx).state dead)
              ≡ false
        present lt e = ground arith

        chosen :
            (b : Bool)
            → (if b
                then returns
                    (record k { thr = terminate cpu k.thr tf.ebx })
                    (syscall_set_errno tf e_succ)
                else returns
                    (record k { thr = post cpu k.thr tf.ebx tf.ecx })
                    (syscall_set_errno tf e_succ))
              ≡ returns
                  (record k {
                    thr = if b then terminate cpu k.thr tf.ebx else post cpu k.thr tf.ebx tf.ecx;
                  })
                  (syscall_set_errno tf e_succ)
        chosen true = refl
        chosen false = refl
