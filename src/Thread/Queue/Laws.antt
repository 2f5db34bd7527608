-- ===== src/Thread/Queue/Laws.antt =====
-- The thread queues against lists of thread ids.
use os_project_signal.Prelude.{
  ℕ, ◌<◌, ◌≡◌, ◌≢◌, refl, false, List, [], ◌∷◌, ◌++◌, arith, ◌==◌, if◌then◌else◌, mem, Distinct,
  head_or, last_or, mem-last_or, last_or-append, Distinct-append, sym, ◌∙◌, ==-false,
}
use os_project_signal.Pmm.Container.{num_ids}
use os_project_signal.Thread.Tcb.{
  Threads, tcb_set_prev, tcb_get_next, tcb_set_next, tqueue_get_head, tqueue_set_head,
  tqueue_get_tail, tqueue_set_tail,
}
use os_project_signal.Thread.Queue.{tqueue_enqueue, tqueue_dequeue}
use os_project_signal.Thread.Queue.Chain.{
  Chain, Chain-snoc, Chain-tail, mem-Chain-lt, ne_of_mem, mem-num_ids,
}

-- Queue `chid` of the CPU holds the threads `xs`, in this order.
pub record IsQueue (cpu : ℕ) (s : Threads) (chid : ℕ) (xs : List ℕ) : Type 0 where
  pub head_eq : (s.queues cpu chid).head ≡ head_or xs num_ids
  pub tail_eq : (s.queues cpu chid).tail ≡ last_or xs num_ids
  pub chain : Chain s.pool num_ids xs
  pub distinct : Distinct xs

module _ (cpu : ℕ) (s : Threads) (chid : ℕ) where
  last-lt : (x : ℕ) (xs : List ℕ) → IsQueue cpu s chid (x ∷ xs) → last_or xs x < num_ids
  last-lt x xs q = mem-Chain-lt s.pool num_ids (last_or xs x) (x ∷ xs) q.chain (mem-last_or x xs)

  -- The links that tqueue_enqueue writes behind the last thread `t`.
  module _ (pid t : ℕ) (end : (s.queues cpu chid).tail ≡ t) (some_last : t ≢ num_ids)
      (ne : t ≢ pid) where
    enqueue_links :
        let s' = tqueue_enqueue cpu s chid pid in
        ((s'.pool t).next ≡ pid)
        × ((s'.pool pid).prev ≡ t)
        × ((s'.pool pid).next ≡ num_ids)
        × ((s'.queues cpu chid).head ≡ (s.queues cpu chid).head)
        × ((s'.queues cpu chid).tail ≡ pid)
    unfolding tqueue_enqueue tcb_set_prev tcb_set_next tqueue_set_head tqueue_set_tail
        tqueue_get_tail
    enqueue_links = ground arith

    enqueue_prevs :
        (a : ℕ) → a ≢ pid → ((tqueue_enqueue cpu s chid pid).pool a).prev ≡ (s.pool a).prev
    unfolding tqueue_enqueue tcb_set_prev tcb_set_next tqueue_set_head tqueue_set_tail
        tqueue_get_tail
    enqueue_prevs a h = ground arith

    enqueue_nexts :
        (a : ℕ) → a ≢ pid → a ≢ t → ((tqueue_enqueue cpu s chid pid).pool a).next ≡ (s.pool a).next
    unfolding tqueue_enqueue tcb_set_prev tcb_set_next tqueue_set_head tqueue_set_tail
        tqueue_get_tail
    enqueue_nexts a h h' = ground arith

  -- tqueue_enqueue appends a thread that is not in the queue.
  pub tqueue_enqueue-IsQueue :
      (pid : ℕ) (xs : List ℕ)
      → IsQueue cpu s chid xs
      → pid < num_ids
      → mem pid xs ≡ false
      → IsQueue cpu (tqueue_enqueue cpu s chid pid) chid (xs ++ (pid ∷ []))
  unfolding tqueue_enqueue tcb_set_prev tcb_set_next tqueue_set_head tqueue_set_tail tqueue_get_tail
  tqueue_enqueue-IsQueue pid [] q lt out = ground arith
  tqueue_enqueue-IsQueue pid (x ∷ xs) q lt out =
      let end = last-lt x xs q in
      let t = last_or xs x in
      let apart : t ≢ pid = ne_of_mem t pid (x ∷ xs) (mem-last_or x xs) out in
      let some_last : t ≢ num_ids = omega arith in
      let (l₁, l₂, l₃, l₄, l₅) = enqueue_links pid t q.tail_eq some_last apart in
      record {
        head_eq = l₄ ∙ q.head_eq;
        tail_eq = l₅ ∙ sym (last_or-append pid x xs);
        chain =
            Chain-snoc s.pool (tqueue_enqueue cpu s chid pid).pool pid num_ids x xs lt out
              q.distinct (enqueue_prevs pid t q.tail_eq some_last apart)
              (enqueue_nexts pid t q.tail_eq some_last apart) l₁ l₂ l₃ q.chain;
        distinct = Distinct-append pid (x ∷ xs) q.distinct out;
      }

  -- On an empty queue tqueue_dequeue returns num_ids and changes nothing.
  pub tqueue_dequeue-empty : IsQueue cpu s chid [] → tqueue_dequeue cpu s chid ≡ (num_ids, s)
  unfolding tqueue_dequeue tqueue_get_head
  tqueue_dequeue-empty q = rw q.head_eq

  module _ (x : ℕ) (h : (s.queues cpu chid).head ≡ x) (some_head : x ≢ num_ids) (n : ℕ)
      (hn : (s.pool x).next ≡ n) where
    dequeue_head :
        let (pid, s') = tqueue_dequeue cpu s chid in (pid ≡ x) × ((s'.queues cpu chid).head ≡ n)
    unfolding tqueue_dequeue tqueue_get_head tqueue_set_head tqueue_set_tail tcb_get_next
        tcb_set_prev tcb_set_next
    dequeue_head = ground arith

    dequeue_tail :
        ((tqueue_dequeue cpu s chid).1.queues cpu chid).tail
        ≡ (if n == num_ids then num_ids else (s.queues cpu chid).tail)
    unfolding tqueue_dequeue tqueue_get_head tqueue_set_head tqueue_set_tail tcb_get_next
        tcb_set_prev tcb_set_next
    dequeue_tail = rw (h, ==-false x num_ids some_head, hn) (ground arith)

    dequeue_prevs :
        (a : ℕ)
        → a ≢ x
        → a < num_ids
        → ((tqueue_dequeue cpu s chid).1.pool a).prev
          ≡ (if a == n then num_ids else (s.pool a).prev)
    unfolding tqueue_dequeue tqueue_get_head tqueue_set_head tqueue_set_tail tcb_get_next
        tcb_set_prev tcb_set_next
    dequeue_prevs a ne lt = ground arith

    dequeue_nexts :
        (a : ℕ)
        → a ≢ x
        → a < num_ids
        → ((tqueue_dequeue cpu s chid).1.pool a).next
          ≡ (if a == num_ids then n else (s.pool a).next)
    unfolding tqueue_dequeue tqueue_get_head tqueue_set_head tqueue_set_tail tcb_get_next
        tcb_set_prev tcb_set_next
    dequeue_nexts a ne lt = ground arith

  -- tqueue_dequeue returns the first thread and leaves the rest.
  pub tqueue_dequeue-IsQueue :
      (x : ℕ) (xs : List ℕ)
      → IsQueue cpu s chid (x ∷ xs)
      → let (pid, s') = tqueue_dequeue cpu s chid in (pid ≡ x) × IsQueue cpu s' chid xs
  tqueue_dequeue-IsQueue x xs q =
      let (lt, pv, nx, c) = q.chain in
      let some_head : x ≢ num_ids = omega arith in
      let (e₁, e₂) = dequeue_head x q.head_eq some_head (head_or xs num_ids) nx in
      (
        e₁,
        record {
          head_eq = e₂;
          tail_eq =
              dequeue_tail x q.head_eq some_head (head_or xs num_ids) nx ∙ tail_of xs c q.tail_eq;
          chain =
              Chain-tail s.pool (tqueue_dequeue cpu s chid).1.pool x num_ids xs q.distinct.0
                (mem-num_ids s.pool x xs c) q.distinct.1
                (record {
                  prevs = dequeue_prevs x q.head_eq some_head (head_or xs num_ids) nx;
                  nexts = dequeue_nexts x q.head_eq some_head (head_or xs num_ids) nx;
                })
                c;
          distinct = q.distinct.1;
        },
      )
    where
      tail_of :
          (ys : List ℕ)
          → Chain s.pool x ys
          → (s.queues cpu chid).tail ≡ last_or ys x
          → (if head_or ys num_ids == num_ids then num_ids else (s.queues cpu chid).tail)
            ≡ last_or ys num_ids
      tail_of [] c e = refl
      tail_of (y ∷ ys) c e = rw (==-false y num_ids (omega arith)) e
