-- ===== src/Thread/Sched/Wakeup.antt =====
-- thread_wakeup readies just the threads that sleep on the channel.
use mathlib.Core.List.{append_assoc, append-nil}
use os_project_signal.Prelude.{
  ℕ, zero, suc, ◌+◌, ◌-◌, ◌≤◌, ◌<◌, ◌≡◌, ◌≢◌, refl, inl, inr, Bool, true, false, ◌&&◌, List, [],
  ◌∷◌, ◌++◌, arith, ◌==◌, if◌then◌else◌, leb, ltb, mem, mem-append, ap, ◌∙◌, subst, Bool-cases,
}
use os_project_signal.Pmm.Container.{num_ids}
use os_project_signal.Thread.Tcb.{
  Threads, ready, sleep, tcb_get_state, tcb_get_chan, tcb_set_state, tcb_set_chan,
}
use os_project_signal.Thread.Queue.Laws.{tqueue_enqueue-IsQueue}
use os_project_signal.Thread.Sched.{sleeps_on, wake_one, wake_from, thread_wakeup}
use os_project_signal.Thread.Sched.Inv.{
  IsScheduled, IsQueue-frame, tqueue_enqueue-SameBlock, tqueue_enqueue-current,
}

module _ (cpu : ℕ) where
  -- Thread `pid` made ready, before it is queued.
  abbrev readied : Threads → ℕ → Threads
  readied s pid = tcb_set_chan (tcb_set_state s pid ready) pid 0

  module _ (s : Threads) (pid j : ℕ) where
    readied-block :
        (((readied s pid).pool j).prev ≡ (s.pool j).prev)
        × (((readied s pid).pool j).next ≡ (s.pool j).next)
        × (((readied s pid).pool j).state ≡ (if pid == j then ready else (s.pool j).state))
        × (((readied s pid).pool j).channel ≡ (if pid == j then 0 else (s.pool j).channel))
    unfolding tcb_set_state tcb_set_chan
    readied-block = ground arith

    wake_one-state :
        ((wake_one cpu s pid).pool j).state ≡ (if pid == j then ready else (s.pool j).state)
    unfolding wake_one
    wake_one-state =
        (tqueue_enqueue-SameBlock cpu (readied s pid) num_ids pid j).state_eq ∙ readied-block.2

    wake_one-channel :
        ((wake_one cpu s pid).pool j).channel ≡ (if pid == j then 0 else (s.pool j).channel)
    unfolding wake_one
    wake_one-channel =
        (tqueue_enqueue-SameBlock cpu (readied s pid) num_ids pid j).channel_eq ∙ readied-block.3

    sleeps_on-wake_one :
        (chan : ℕ)
        → sleeps_on cpu (wake_one cpu s pid) chan j
          ≡ (if pid == j then false else sleeps_on cpu s chan j)
    unfolding sleeps_on tcb_get_chan tcb_get_state
    sleeps_on-wake_one chan = ground (arith, wake_one-state, wake_one-channel)

  wake_one-current : (s : Threads) (pid : ℕ) → (wake_one cpu s pid).current ≡ s.current
  unfolding wake_one tcb_set_state tcb_set_chan
  wake_one-current s pid = tqueue_enqueue-current cpu (readied s pid) num_ids pid 0

  readied-queues : (s : Threads) (pid : ℕ) → (readied s pid).queues ≡ s.queues
  unfolding tcb_set_state tcb_set_chan
  readied-queues s pid = refl

  sleeping_of_test :
      (s : Threads) (chan pid : ℕ) → sleeps_on cpu s chan pid ≡ true → (s.pool pid).state ≡ sleep
  unfolding sleeps_on tcb_get_state
  sleeping_of_test s chan pid h = ground arith

  not_queued :
      {ps : List ℕ} (s : Threads) (xs : List ℕ) (pid : ℕ)
      → IsScheduled ps cpu s xs
      → (s.pool pid).state ≡ sleep
      → mem pid xs ≡ false
  not_queued s xs pid v e = go (mem pid xs) refl
    where
      go : (b : Bool) → mem pid xs ≡ b → b ≡ false
      go true i = let a = v.queued pid i in ground arith
      go false i = refl

  wake_one-IsScheduled :
      {ps : List ℕ} (s : Threads) (xs : List ℕ) (pid : ℕ)
      → pid < num_ids
      → (s.pool pid).state ≡ sleep
      → IsScheduled ps cpu s xs
      → IsScheduled ps cpu (wake_one cpu s pid) (xs ++ (pid ∷ []))
  unfolding wake_one
  wake_one-IsScheduled s xs pid lt asleep v =
      let cur = ap (λ f. f cpu) (wake_one-current s pid) in
      let awake : pid ≢ s.current cpu = λ e. let r = v.running in ground arith in
      let q =
        IsQueue-frame cpu s (readied s pid) num_ids xs
          (λ a. ((readied-block s pid a).0, (readied-block s pid a).1)) (readied-queues s pid)
          v.queue in
      record {
        queue =
            tqueue_enqueue-IsQueue cpu (readied s pid) num_ids pid xs q lt
              (not_queued s xs pid v asleep);
        in_range = ground arith;
        running = let r = v.running in ground (arith, wake_one-state s pid (s.current cpu));
        only = λ j h r. let o = v.only j h in ground (arith, wake_one-state s pid j);
        queued = λ j i.
            let a = v.queued j in
            let m = mem-append j xs (pid ∷ []) in ground (arith, wake_one-state s pid j);
        complete = λ j h r.
            let a = v.complete j h in
            let m = mem-append j xs (pid ∷ []) in ground (arith, wake_one-state s pid j);
      }

  -- The threads from `pid` on, `rounds` of them, that sleep on the channel.
  pub sleepers : Threads → ℕ → ℕ → ℕ → List ℕ
  sleepers s chan zero pid = []
  sleepers s chan (suc rounds) pid =
      let rest = sleepers s chan rounds (pid + 1) in
      if sleeps_on cpu s chan pid then pid ∷ rest else rest

  sleepers-congr :
      (s t : Threads) (chan rounds pid : ℕ)
      → ((j : ℕ) → pid ≤ j → sleeps_on cpu t chan j ≡ sleeps_on cpu s chan j)
      → sleepers t chan rounds pid ≡ sleepers s chan rounds pid
  unfolding sleepers
  sleepers-congr s t chan zero pid same = refl
  sleepers-congr s t chan (suc rounds) pid same =
      let rest = sleepers-congr s t chan rounds (pid + 1) (λ j h. same j (omega arith)) in
      rw (rest, same pid (omega arith))

  wake_from-IsScheduled :
      {ps : List ℕ} (s : Threads) (xs : List ℕ) (chan rounds pid : ℕ)
      → pid + rounds ≤ num_ids
      → IsScheduled ps cpu s xs
      → IsScheduled ps cpu (wake_from cpu s chan rounds pid) (xs ++ sleepers s chan rounds pid)
  unfolding wake_from sleepers
  wake_from-IsScheduled s xs chan zero pid h v = rw append-nil v
  wake_from-IsScheduled {ps} s xs chan (suc rounds) pid h v =
      elim (Bool-cases (sleeps_on cpu s chan pid)) [
        | inl asleep ↦
            let same : (j : ℕ)
                → pid + 1 ≤ j
                → sleeps_on cpu (wake_one cpu s pid) chan j ≡ sleeps_on cpu s chan j =
              λ j p. ground (arith, sleeps_on-wake_one s pid j chan) in
            let v' =
              wake_one-IsScheduled s xs pid (omega arith) (sleeping_of_test s chan pid asleep) v in
            let rest =
              wake_from-IsScheduled (wake_one cpu s pid) (xs ++ (pid ∷ [])) chan rounds (pid + 1)
                (omega arith) v' in
            let e = sleepers-congr s (wake_one cpu s pid) chan rounds (pid + 1) same in
            rw asleep (
              subst (IsScheduled ps cpu (wake_from cpu (wake_one cpu s pid) chan rounds (pid + 1)))
                (append_assoc xs (pid ∷ []) (sleepers (wake_one cpu s pid) chan rounds (pid + 1))
                  ∙ ap (λ l. xs ++ (pid ∷ l)) e)
                rest)
        | inr awake ↦ rw awake (wake_from-IsScheduled s xs chan rounds (pid + 1) (omega arith) v)
      ]

  -- From a state with the scheduler invariant for the processes `ps`, thread_wakeup keeps the
  -- invariant: it appends to the ready queue, in the order of their numbers, all threads but
  -- thread 0 that sleep on the channel, and no others.
  pub thread_wakeup-IsScheduled :
      {ps : List ℕ} (s : Threads) (xs : List ℕ) (chan : ℕ)
      → IsScheduled ps cpu s xs
      → IsScheduled ps cpu (thread_wakeup cpu s chan) (xs ++ sleepers s chan (num_ids - 1) 1)
  unfolding thread_wakeup
  thread_wakeup-IsScheduled s xs chan v =
      wake_from-IsScheduled s xs chan (num_ids - 1) 1 (omega arith) v

  pub mem-sleepers :
      (s : Threads) (chan rounds pid j : ℕ)
      → mem j (sleepers s chan rounds pid)
        ≡ ((leb pid j && ltb j (pid + rounds)) && sleeps_on cpu s chan j)
  unfolding sleepers
  mem-sleepers s chan zero pid j = ground arith
  mem-sleepers s chan (suc rounds) pid j = ground (arith, mem-sleepers s chan rounds (pid + 1) j)
