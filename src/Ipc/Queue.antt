-- ===== src/Ipc/Queue.antt =====
-- The message queue against lists of process ids.
use os_project_signal.Prelude.{
  ℕ, ◌<◌, ◌≡◌, ◌≢◌, refl, true, false, List, [], ◌∷◌, ◌++◌, arith, ◌==◌, if◌then◌else◌, mem,
  Distinct, head_or, last_or, erase, mem-last_or, last_or-append, Distinct-append, Distinct-erase,
  sym, ◌∙◌, subst,
}
use os_project_signal.Pmm.Container.{num_ids}
use os_project_signal.Thread.Tcb.{Tcb, empty_tcb}
use os_project_signal.Thread.Queue.Chain.{
  Chain, Chain-snoc, Chain-erase, mem-Chain-lt, ne_of_mem, mem-num_ids,
}
use os_project_signal.Thread.Queue.Remove.{Chain-at, split_at, head-removed, tail-removed}
use os_project_signal.Ipc.{Ipc, MsgBlock, msg_enqueue, msg_remove}

-- The links of the blocks, as a chain of thread control blocks has them.
abbrev pub links : (ℕ → MsgBlock) → ℕ → Tcb
links block i = record empty_tcb { prev = (block i).prev; next = (block i).next }

-- The queue holds the messages of the processes `xs`, in this order, and each block is that of its
-- own process.
pub record IsMsgQueue (s : Ipc) (xs : List ℕ) : Type 0 where
  pub head_eq : s.head ≡ head_or xs num_ids
  pub tail_eq : s.tail ≡ last_or xs num_ids
  pub chain : Chain (links s.block) num_ids xs
  pub distinct : Distinct xs
  pub own : (pid : ℕ) → pid < num_ids → (s.block pid).send_pid ≡ pid

module _ (s : Ipc) where
  module _ (pid t : ℕ) (end : s.tail ≡ t) (some_last : t ≢ num_ids) (ne : t ≢ pid) where
    enqueue_links :
        let s' = msg_enqueue s pid in
        ((s'.block t).next ≡ pid)
        × ((s'.block pid).prev ≡ t)
        × ((s'.block pid).next ≡ num_ids)
        × (s'.head ≡ s.head)
        × (s'.tail ≡ pid)
    unfolding msg_enqueue
    enqueue_links = ground arith

    enqueue_prevs : (a : ℕ) → a ≢ pid → ((msg_enqueue s pid).block a).prev ≡ (s.block a).prev
    unfolding msg_enqueue
    enqueue_prevs a h = ground arith

    enqueue_nexts :
        (a : ℕ) → a ≢ pid → a ≢ t → ((msg_enqueue s pid).block a).next ≡ (s.block a).next
    unfolding msg_enqueue
    enqueue_nexts a h h' = ground arith

  enqueue_own : (pid a : ℕ) → ((msg_enqueue s pid).block a).send_pid ≡ (s.block a).send_pid
  unfolding msg_enqueue
  enqueue_own pid a = ground arith

  -- msg_enqueue appends a process that is not in the queue.
  pub msg_enqueue-IsMsgQueue :
      (pid : ℕ) (xs : List ℕ)
      → IsMsgQueue s xs
      → pid < num_ids
      → mem pid xs ≡ false
      → IsMsgQueue (msg_enqueue s pid) (xs ++ (pid ∷ []))
  unfolding msg_enqueue
  msg_enqueue-IsMsgQueue pid [] q lt out = record {
    head_eq = rw q.tail_eq refl;
    tail_eq = rw q.tail_eq refl;
    chain = let e = q.tail_eq in ground arith;
    distinct = (refl, tt);
    own = λ a p. enqueue_own pid a ∙ q.own a p;
  }
  msg_enqueue-IsMsgQueue pid (x ∷ xs) q lt out =
      let last_lt =
        mem-Chain-lt (links s.block) num_ids (last_or xs x) (x ∷ xs) q.chain (mem-last_or x xs) in
      let t = last_or xs x in
      let apart : t ≢ pid = ne_of_mem t pid (x ∷ xs) (mem-last_or x xs) out in
      let some_last : t ≢ num_ids = omega arith in
      let (l₁, l₂, l₃, l₄, l₅) = enqueue_links pid t q.tail_eq some_last apart in
      record {
        head_eq = l₄ ∙ q.head_eq;
        tail_eq = l₅ ∙ sym (last_or-append pid x xs);
        chain =
            Chain-snoc (links s.block) (links (msg_enqueue s pid).block) pid num_ids x xs lt out
              q.distinct (enqueue_prevs pid t q.tail_eq some_last apart)
              (enqueue_nexts pid t q.tail_eq some_last apart) l₁ l₂ l₃ q.chain;
        distinct = Distinct-append pid (x ∷ xs) q.distinct out;
        own = λ a p. enqueue_own pid a ∙ q.own a p;
      }

  module _ (pid p n : ℕ) (hp : (s.block pid).prev ≡ p) (hn : (s.block pid).next ≡ n) where
    remove_ends :
        let s' = msg_remove s pid in
        (s'.head ≡ (if p == num_ids then n else s.head))
        × (s'.tail ≡ (if n == num_ids then p else s.tail))
    unfolding msg_remove
    remove_ends = rw (hp, hn) (ground arith)

    remove_prevs :
        (a : ℕ)
        → a ≢ pid
        → a < num_ids
        → ((msg_remove s pid).block a).prev ≡ (if a == n then p else (s.block a).prev)
    unfolding msg_remove
    remove_prevs a ne lt = rw (hp, hn) (ground arith)

    remove_nexts :
        (a : ℕ)
        → a ≢ pid
        → a < num_ids
        → ((msg_remove s pid).block a).next ≡ (if a == p then n else (s.block a).next)
    unfolding msg_remove
    remove_nexts a ne lt = rw (hp, hn) (ground arith)

  remove_own : (pid a : ℕ) → ((msg_remove s pid).block a).send_pid ≡ (s.block a).send_pid
  unfolding msg_remove
  remove_own pid a = ground arith

  remove_split :
      (pid : ℕ) (xs bs : List ℕ)
      → IsMsgQueue s (xs ++ (pid ∷ bs))
      → Distinct (xs ++ bs)
      → IsMsgQueue (msg_remove s pid) (xs ++ bs)
  remove_split pid xs bs q d =
      let (hp, hn) = Chain-at (links s.block) num_ids pid xs bs q.chain in
      let null = mem-num_ids (links s.block) num_ids (xs ++ (pid ∷ bs)) q.chain in
      let (e₁, e₂) = remove_ends pid (last_or xs num_ids) (head_or bs num_ids) hp hn in
      record {
        head_eq = e₁ ∙ head-removed (links s.block) pid _ xs bs q.chain q.head_eq;
        tail_eq = e₂ ∙ tail-removed (links s.block) pid _ xs bs q.chain q.tail_eq;
        chain =
            Chain-erase (links s.block) (links (msg_remove s pid).block) pid num_ids xs bs null
              q.distinct
              (record {
                prevs = remove_prevs pid (last_or xs num_ids) (head_or bs num_ids) hp hn;
                nexts = remove_nexts pid (last_or xs num_ids) (head_or bs num_ids) hp hn;
              })
              q.chain;
        distinct = d;
        own = λ a p. remove_own pid a ∙ q.own a p;
      }

  -- msg_remove takes a process out of the queue, and leaves the others in order.
  pub msg_remove-IsMsgQueue :
      (pid : ℕ) (ys : List ℕ)
      → IsMsgQueue s ys
      → mem pid ys ≡ true
      → IsMsgQueue (msg_remove s pid) (erase pid ys)
  msg_remove-IsMsgQueue pid ys q i =
      let (xs, bs, e₁, e₂) = split_at pid ys i in
      subst (IsMsgQueue (msg_remove s pid)) (sym e₂) (
        remove_split pid xs bs (subst (IsMsgQueue s) e₁ q)
          (subst Distinct e₂ (Distinct-erase pid ys q.distinct)))
