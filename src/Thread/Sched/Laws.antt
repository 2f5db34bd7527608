-- ===== src/Thread/Sched/Laws.antt =====
-- thread_yield, thread_exit and thread_sleep keep the invariant, and run threads in turn.
use mathlib.Core.List.{append_assoc}
use os_project_signal.Prelude.{
  ℕ, zero, suc, ◌≡◌, ◌≢◌, refl, Bool, true, false, some, List, [], ◌∷◌, ◌++◌, arith, ◌==◌,
  if◌then◌else◌, mem, mem-append, length, subst, ◌∙◌, sym, ==-false, ==_refl,
}
use os_project_signal.Pmm.Container.{num_ids}
use os_project_signal.Thread.Tcb.{
  Threads, TState, ready, run, sleep, dead, tcb_set_state, tcb_set_chan, get_curid, set_curid,
}
use os_project_signal.Thread.Queue.{tqueue_enqueue, tqueue_dequeue}
use os_project_signal.Thread.Queue.Laws.{tqueue_enqueue-IsQueue, tqueue_dequeue-IsQueue}
use os_project_signal.Thread.Sched.{thread_yield, thread_exit, thread_sleep}
use os_project_signal.Thread.Sched.Inv.{
  IsScheduled, IsParked, SameBlock, IsQueue-frame, tqueue_enqueue-SameBlock,
  tqueue_dequeue-SameBlock,
}

module _ (cpu : ℕ) where
  -- Running `x`, as the functions that switch do.
  abbrev start : Threads → ℕ → Threads
  start s x = set_curid cpu (tcb_set_state s x run) x

  dispatch :
      {ps : List ℕ} (s : Threads) (x : ℕ) (xs : List ℕ)
      → IsParked ps cpu s (x ∷ xs)
      → let (pid, s') = tqueue_dequeue cpu s num_ids in
        (pid ≡ x) × IsScheduled ps cpu (start s' x) xs × ((start s' x).current cpu ≡ x)
  unfolding set_curid tcb_set_state
  dispatch s x xs p =
      let s' = (tqueue_dequeue cpu s num_ids).1 in
      let (e, q) = tqueue_dequeue-IsQueue cpu s num_ids x xs p.queue in
      let lt = p.queue.chain.0 in
      let out = p.queue.distinct.0 in
      (
        e,
        record {
          queue = IsQueue-frame cpu s' _ num_ids xs (λ a. ground arith) refl q;
          in_range = ground arith;
          running = ground arith;
          only = λ pid h r.
              let i = p.idle pid h in
              let b = tqueue_dequeue-SameBlock cpu s num_ids 0 pid in ground arith;
          queued = λ pid i.
              let a = p.queued pid in
              let b = tqueue_dequeue-SameBlock cpu s num_ids 0 pid in ground arith;
          complete = λ pid h r.
              let a = p.complete pid h in
              let b = tqueue_dequeue-SameBlock cpu s num_ids 0 pid in ground arith;
        },
        ground arith,
      )

  -- What running `x` after tqueue_dequeue leaves of the block of another thread.
  dispatch-kept :
      (t : Threads) (x c : ℕ)
      → x ≢ c
      → SameBlock ((start (tqueue_dequeue cpu t num_ids).1 x).pool c) (t.pool c)
  unfolding set_curid tcb_set_state
  dispatch-kept t x c apart = let b = tqueue_dequeue-SameBlock cpu t num_ids 0 c in ground arith

  -- `t` is `s` but that thread `c` has left the CPU in state `st`.
  record IsLeft (s t : Threads) (c : ℕ) (st : TState) : Type 0 where
    same_queues : t.queues ≡ s.queues
    links :
        (pid : ℕ)
        → ((t.pool pid).prev ≡ (s.pool pid).prev) × ((t.pool pid).next ≡ (s.pool pid).next)
    states : (pid : ℕ) → (t.pool pid).state ≡ (if c == pid then st else (s.pool pid).state)

  leave :
      {ps : List ℕ} (s t : Threads) (xs : List ℕ) (st : TState)
      → IsScheduled ps cpu s xs
      → IsLeft s t (s.current cpu) st
      → st ≢ run
      → st ≢ ready
      → IsParked ps cpu t xs
  leave {ps} s t xs st v l not_run not_ready = record {
    queue = IsQueue-frame cpu s t num_ids xs l.links l.same_queues v.queue;
    idle = λ pid h r. idle pid h (sym (l.states pid) ∙ r);
    queued = λ pid i. l.states pid ∙ queued pid (v.queued pid i);
    complete = λ pid h r. complete pid h (sym (l.states pid) ∙ r);
  }
    where
      idle :
          (pid : ℕ)
          → mem pid ps ≡ true
          → (if s.current cpu == pid then st else (s.pool pid).state) ≢ run
      idle pid h e = let o = v.only pid h in ground arith

      queued :
          (pid : ℕ)
          → (s.pool pid).state ≡ ready
          → (if s.current cpu == pid then st else (s.pool pid).state) ≡ ready
      queued pid e = let r = v.running in ground arith

      complete :
          (pid : ℕ)
          → mem pid ps ≡ true
          → (if s.current cpu == pid then st else (s.pool pid).state) ≡ ready
          → mem pid xs ≡ true
      complete pid h e = let a = v.complete pid h in ground arith

  sleep-IsLeft :
      (s : Threads) (c chan : ℕ) → IsLeft s (tcb_set_chan (tcb_set_state s c sleep) c chan) c sleep
  unfolding tcb_set_state tcb_set_chan
  sleep-IsLeft s c chan = record {
    same_queues = refl;
    links = λ pid. ground arith;
    states = λ pid. ground arith;
  }

  dead-IsLeft : (s : Threads) (c : ℕ) → IsLeft s (tcb_set_state s c dead) c dead
  unfolding tcb_set_state
  dead-IsLeft s c = record {
    same_queues = refl;
    links = λ pid. ground arith;
    states = λ pid. ground arith;
  }

  channel-left : (s : Threads) (c chan : ℕ) → ((tcb_set_chan s c chan).pool c).channel ≡ chan
  unfolding tcb_set_chan
  channel-left s c chan = ground arith

  cur_out :
      {ps : List ℕ} (s : Threads) (xs : List ℕ)
      → IsScheduled ps cpu s xs
      → mem (s.current cpu) xs ≡ false
  cur_out s xs v = go (mem (s.current cpu) xs) refl
    where
      go : (b : Bool) → mem (s.current cpu) xs ≡ b → b ≡ false
      go true e = let a = v.queued (s.current cpu) e in let r = v.running in ground arith
      go false e = refl

  cur_ne :
      {ps : List ℕ} (s : Threads) (x : ℕ) (xs : List ℕ)
      → IsScheduled ps cpu s (x ∷ xs)
      → x ≢ s.current cpu
  cur_ne s x xs v e = let a = cur_out s (x ∷ xs) v in ground arith

  -- The current thread goes to the tail of the ready queue.
  requeue :
      {ps : List ℕ} (s : Threads) (xs : List ℕ)
      → IsScheduled ps cpu s xs
      → IsParked ps cpu
          (tqueue_enqueue cpu (tcb_set_state s (s.current cpu) ready) num_ids (s.current cpu))
          (xs ++ (s.current cpu ∷ []))
  unfolding tcb_set_state
  requeue s xs v =
      let c = s.current cpu in
      let t = tcb_set_state s c ready in
      let q = IsQueue-frame cpu s t num_ids xs (λ a. ground arith) refl v.queue in
      record {
        queue = tqueue_enqueue-IsQueue cpu t num_ids c xs q v.in_range (cur_out s xs v);
        idle = λ pid h.
            let o = v.only pid h in
            let b = tqueue_enqueue-SameBlock cpu t num_ids c pid in ground arith;
        queued = λ pid i.
            let a = v.queued pid in
            let m = mem-append pid xs (c ∷ []) in
            let b = tqueue_enqueue-SameBlock cpu t num_ids c pid in ground arith;
        complete = λ pid h r.
            let a = v.complete pid h in
            let m = mem-append pid xs (c ∷ []) in
            let b = tqueue_enqueue-SameBlock cpu t num_ids c pid in ground arith;
      }

  -- With the scheduler invariant for the processes `ps` and another thread in the ready queue,
  -- thread_yield keeps the invariant, runs the first thread of the queue and puts the current one
  -- behind the others: with `x` first in the queue and `xs` behind it, `x` runs and the queue is
  -- `xs` and then the thread that yielded.
  pub thread_yield-IsScheduled :
      {ps : List ℕ} (s : Threads) (x : ℕ) (xs : List ℕ)
      → IsScheduled ps cpu s (x ∷ xs)
      → IsScheduled ps cpu (thread_yield cpu s) (xs ++ (s.current cpu ∷ []))
        × ((thread_yield cpu s).current cpu ≡ x)
  unfolding thread_yield get_curid
  thread_yield-IsScheduled s x xs v =
      let t = tqueue_enqueue cpu (tcb_set_state s (s.current cpu) ready) num_ids (s.current cpu) in
      let (e, sched, cur) = dispatch t x (xs ++ (s.current cpu ∷ [])) (requeue s (x ∷ xs) v) in
      rw e (sched, cur)

  -- Alone, a thread that yields goes on.
  pub thread_yield-alone :
      {ps : List ℕ} (s : Threads)
      → IsScheduled ps cpu s []
      → IsScheduled ps cpu (thread_yield cpu s) []
        × ((thread_yield cpu s).current cpu ≡ s.current cpu)
  unfolding thread_yield get_curid
  thread_yield-alone s v =
      let t = tqueue_enqueue cpu (tcb_set_state s (s.current cpu) ready) num_ids (s.current cpu) in
      let (e, sched, cur) = dispatch t (s.current cpu) [] (requeue s [] v) in rw e (sched, cur)

  -- With the scheduler invariant for the processes `ps` and another thread in the ready queue,
  -- thread_sleep marks the current thread as sleeping on the channel, runs the first thread of the
  -- queue, takes it off the queue and keeps the invariant.
  pub thread_sleep-IsScheduled :
      {ps : List ℕ} (s : Threads) (chan x : ℕ) (xs : List ℕ)
      → IsScheduled ps cpu s (x ∷ xs)
      → let s' = thread_sleep cpu s chan in
        IsScheduled ps cpu s' xs
        × (s'.current cpu ≡ x)
        × ((s'.pool (s.current cpu)).state ≡ sleep)
        × ((s'.pool (s.current cpu)).channel ≡ chan)
  unfolding thread_sleep get_curid
  thread_sleep-IsScheduled s chan x xs v =
      let c = s.current cpu in
      let t = tcb_set_chan (tcb_set_state s c sleep) c chan in
      let l = sleep-IsLeft s c chan in
      let (e, sched, cur) = dispatch t x xs (leave s t (x ∷ xs) sleep v l (λ e. cc) (λ e. cc)) in
      let kept = dispatch-kept t x c (cur_ne s x xs v) in
      rw e (
        sched,
        cur,
        kept.state_eq ∙ l.states c ∙ rw ==_refl,
        kept.channel_eq ∙ channel-left (tcb_set_state s c sleep) c chan,
      )

  -- `n` yields in a row, with nothing between.
  pub yields : ℕ → Threads → Threads
  yields zero s = s
  yields (suc n) s = yields n (thread_yield cpu s)

  -- From a state with the scheduler invariant for some processes, each thread in the ready queue
  -- runs in turn: the one with `length before` others before it in the queue runs after that many
  -- yields and one more.
  pub yields-runs :
      {ps : List ℕ} (s : Threads) (x : ℕ) (before after : List ℕ)
      → IsScheduled ps cpu s (before ++ (x ∷ after))
      → (yields (suc (length before)) s).current cpu ≡ x
  unfolding yields
  yields-runs s x [] after v = (thread_yield-IsScheduled s x after v).1
  yields-runs {ps} s x (y ∷ before) after v =
      let (w, e) = thread_yield-IsScheduled s y (before ++ (x ∷ after)) v in
      yields-runs (thread_yield cpu s) x before (after ++ (s.current cpu ∷ [])) (
        subst (IsScheduled ps cpu (thread_yield cpu s))
          (append_assoc before (x ∷ after) (s.current cpu ∷ [])) w)

  -- thread_exit, called when the current thread is marked as dead and another thread is ready,
  -- runs the first ready thread `x`, leaves `xs` in the ready queue, and the thread stays dead.
  pub thread_exit-IsScheduled :
      {ps : List ℕ} (s : Threads) (x : ℕ) (xs : List ℕ)
      → IsScheduled ps cpu s (x ∷ xs)
      → (s' : Threads) × (thread_exit cpu (tcb_set_state s (s.current cpu) dead) ≡ some s')
        × IsScheduled ps cpu s' xs
        × (s'.current cpu ≡ x)
        × ((s'.pool (s.current cpu)).state ≡ dead)
  unfolding thread_exit
  thread_exit-IsScheduled s x xs v =
      let c = s.current cpu in
      let t = tcb_set_state s c dead in
      let l = dead-IsLeft s c in
      let (e, sched, cur) = dispatch t x xs (leave s t (x ∷ xs) dead v l (λ e. cc) (λ e. cc)) in
      let kept = dispatch-kept t x c (cur_ne s x xs v) in
      let lt = v.queue.chain.0 in
      (
        start (tqueue_dequeue cpu t num_ids).1 x,
        rw (e, ==-false x num_ids (omega arith)),
        sched,
        cur,
        kept.state_eq ∙ l.states c ∙ rw ==_refl,
      )
