-- ===== src/Thread/Sched/Inv.antt =====
-- The scheduler's invariant, and what the queue operations leave alone.
use os_project_signal.Prelude.{ℕ, ◌<◌, ◌≡◌, ◌≢◌, true, List, arith, mem, ap, ◌∙◌}
use os_project_signal.Pmm.Container.{num_ids}
use os_project_signal.Thread.Tcb.{
  Threads, Tcb, ready, run, tcb_get_prev, tcb_set_prev, tcb_get_next, tcb_set_next, tqueue_get_head,
  tqueue_set_head, tqueue_get_tail, tqueue_set_tail,
}
use os_project_signal.Thread.Queue.{tqueue_enqueue, tqueue_dequeue, tqueue_remove}
use os_project_signal.Thread.Queue.Chain.{Chain-frame}
use os_project_signal.Thread.Queue.Laws.{IsQueue}

-- On this CPU the ready queue holds `xs`, and `ps` are the threads that were spawned, which
-- neither the boot thread 0 nor a zeroed block is. The current thread runs and is not queued, no
-- other thread of `ps` runs, the threads in the queue are ready, and each thread of `ps` that is
-- ready is in the queue.
pub record IsScheduled (ps : List ℕ) (cpu : ℕ) (s : Threads) (xs : List ℕ) : Type 0 where
  pub queue : IsQueue cpu s num_ids xs
  pub in_range : s.current cpu < num_ids
  pub running : (s.pool (s.current cpu)).state ≡ run
  pub only : (pid : ℕ) → mem pid ps ≡ true → (s.pool pid).state ≡ run → pid ≡ s.current cpu
  pub queued : (pid : ℕ) → mem pid xs ≡ true → (s.pool pid).state ≡ ready
  pub complete : (pid : ℕ) → mem pid ps ≡ true → (s.pool pid).state ≡ ready → mem pid xs ≡ true

-- The blocks of two pools agree but for their links.
pub record SameBlock (t u : Tcb) : Type 0 where
  pub state_eq : t.state ≡ u.state
  pub channel_eq : t.channel ≡ u.channel
  pub sig_eq : t.sig ≡ u.sig
  pub cwd_eq : t.cwd ≡ u.cwd
  pub files_eq : t.openfiles ≡ u.openfiles

module _ (cpu : ℕ) (s : Threads) (chid pid j : ℕ) where
  pub tqueue_enqueue-SameBlock : SameBlock ((tqueue_enqueue cpu s chid pid).pool j) (s.pool j)
  unfolding tqueue_enqueue tcb_set_prev tcb_set_next tqueue_set_head tqueue_set_tail tqueue_get_tail
  tqueue_enqueue-SameBlock = ground arith

  pub tqueue_dequeue-SameBlock : SameBlock ((tqueue_dequeue cpu s chid).1.pool j) (s.pool j)
  unfolding tqueue_dequeue tqueue_get_head tqueue_set_head tqueue_set_tail tcb_get_next tcb_set_prev
      tcb_set_next
  tqueue_dequeue-SameBlock = ground arith

  pub tqueue_remove-SameBlock : SameBlock ((tqueue_remove cpu s chid pid).pool j) (s.pool j)
  unfolding tqueue_remove tqueue_set_head tqueue_set_tail tcb_get_prev tcb_get_next tcb_set_prev
      tcb_set_next
  tqueue_remove-SameBlock = ground arith

  pub tqueue_enqueue-current : (tqueue_enqueue cpu s chid pid).current ≡ s.current
  unfolding tqueue_enqueue tcb_set_prev tcb_set_next tqueue_set_head tqueue_set_tail tqueue_get_tail
  tqueue_enqueue-current = ground arith

  pub tqueue_dequeue-current : (tqueue_dequeue cpu s chid).1.current ≡ s.current
  unfolding tqueue_dequeue tqueue_get_head tqueue_set_head tqueue_set_tail tcb_get_next tcb_set_prev
      tcb_set_next
  tqueue_dequeue-current = ground arith

  pub tqueue_remove-current : (tqueue_remove cpu s chid pid).current ≡ s.current
  unfolding tqueue_remove tqueue_set_head tqueue_set_tail tcb_get_prev tcb_get_next tcb_set_prev
      tcb_set_next
  tqueue_remove-current = ground arith

-- A change that spares the links of the blocks and the ends of the queue keeps the queue.
pub IsQueue-frame :
    (cpu : ℕ) (s t : Threads) (chid : ℕ) (xs : List ℕ)
    → ((a : ℕ) → ((t.pool a).prev ≡ (s.pool a).prev) × ((t.pool a).next ≡ (s.pool a).next))
    → t.queues ≡ s.queues
    → IsQueue cpu s chid xs
    → IsQueue cpu t chid xs
IsQueue-frame cpu s t chid xs same e q = record {
  head_eq = ap (λ f. (f cpu chid).head) e ∙ q.head_eq;
  tail_eq = ap (λ f. (f cpu chid).tail) e ∙ q.tail_eq;
  chain = Chain-frame s.pool t.pool num_ids xs (λ a i. same a) q.chain;
  distinct = q.distinct;
}

-- Between two threads: none of `ps` runs on this CPU, and the ready ones are queued.
pub record IsParked (ps : List ℕ) (cpu : ℕ) (s : Threads) (xs : List ℕ) : Type 0 where
  pub queue : IsQueue cpu s num_ids xs
  pub idle : (pid : ℕ) → mem pid ps ≡ true → (s.pool pid).state ≢ run
  pub queued : (pid : ℕ) → mem pid xs ≡ true → (s.pool pid).state ≡ ready
  pub complete : (pid : ℕ) → mem pid ps ≡ true → (s.pool pid).state ≡ ready → mem pid xs ≡ true
