-- ===== src/Thread/Queue.antt =====
-- kern/thread/PTQueueInit/PTQueueInit.c: thread queues as doubly linked lists of indices into the
-- pool, num_ids for NULL.
pub mod Chain
pub mod Laws
pub mod Remove
use os_project_signal.Prelude.{
  ℕ, zero, suc, ◌+◌, ◌-◌, ◌≡◌, Bool, true, false, not, arith, ◌==◌, if◌then◌else◌, update,
}
use os_project_signal.Pmm.Container.{num_ids}
use os_project_signal.Thread.Tcb.{
  Threads, tcb_get_prev, tcb_set_prev, tcb_get_next, tcb_set_next, tqueue_get_head, tqueue_set_head,
  tqueue_get_tail, tqueue_set_tail, tqueue_init_at_id,
}

module _ (cpu : ℕ) where
  -- At the tail.
  unfoldable pub tqueue_enqueue : Threads → ℕ → ℕ → Threads
  tqueue_enqueue s chid pid =
      let tail = tqueue_get_tail cpu s chid in
      if tail == num_ids
      then (let s = tcb_set_prev s pid num_ids in
          let s = tcb_set_next s pid num_ids in
          let s = tqueue_set_head cpu s chid pid in tqueue_set_tail cpu s chid pid)
      else (let s = tcb_set_next s tail pid in
          let s = tcb_set_prev s pid tail in
          let s = tcb_set_next s pid num_ids in tqueue_set_tail cpu s chid pid)

  -- From the head: num_ids if the queue is empty.
  unfoldable pub tqueue_dequeue : Threads → ℕ → ℕ × Threads
  tqueue_dequeue s chid =
      let head = tqueue_get_head cpu s chid in
      let next = tcb_get_next s head in
      let unlinked =
        if next == num_ids
        then tqueue_set_tail cpu (tqueue_set_head cpu s chid num_ids) chid num_ids
        else tqueue_set_head cpu (tcb_set_prev s next num_ids) chid next in
      if head == num_ids
      then (num_ids, s)
      else (head, tcb_set_next (tcb_set_prev unlinked head num_ids) head num_ids)

  unfoldable pub tqueue_remove : Threads → ℕ → ℕ → Threads
  tqueue_remove s chid pid =
      let prev = tcb_get_prev s pid in
      let next = tcb_get_next s pid in
      let unlinked =
        if prev == num_ids
        then (if next == num_ids
            then tqueue_set_tail cpu (tqueue_set_head cpu s chid num_ids) chid num_ids
            else tqueue_set_head cpu (tcb_set_prev s next num_ids) chid next)
        else (if next == num_ids
            then tqueue_set_tail cpu (tcb_set_next s prev num_ids) chid prev
            else (let s = if not (prev == next) then tcb_set_next s prev next else s in
                tcb_set_prev s next prev)) in
      tcb_set_next (tcb_set_prev unlinked pid num_ids) pid num_ids
