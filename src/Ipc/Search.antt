-- ===== src/Ipc/Search.antt =====
-- The searches of the message queue, and the exchange of a message.
use os_project_signal.Prelude.{
  ℕ, zero, suc, ◌+◌, ◌<◌, ◌≡◌, ◌≢◌, refl, true, false, ◌&&◌, not, List, [], ◌∷◌, ◌++◌, arith, some,
  none, ◌==◌, if◌then◌else◌, length, mem, head_or, erase, mem-append, sym, ◌∙◌, ==-false, ==_refl,
  ap, subst, update, Bool-cases, inl, inr,
}
use os_project_signal.Pmm.Container.{num_ids}
use os_project_signal.Thread.Queue.Chain.{Chain, Chain-frame}
use os_project_signal.Ipc.{
  Ipc, msg_enqueue, msg_remove, search_send, msg_get_block_by_send_id, search_recv,
  msg_get_block_by_recv_id, post_message, must_wait,
}
use os_project_signal.Ipc.Queue.{links, IsMsgQueue, msg_enqueue-IsMsgQueue, msg_remove-IsMsgQueue}

search_send-mem :
    (s : Ipc) (send_pid fuel p : ℕ) (xs : List ℕ)
    → ((pid : ℕ) → pid < num_ids → (s.block pid).send_pid ≡ pid)
    → Chain (links s.block) p xs
    → length xs < fuel
    → search_send s send_pid fuel (head_or xs num_ids)
      ≡ some (if mem send_pid xs then send_pid else num_ids)
unfolding search_send
search_send-mem s send_pid zero p xs own c h = absurd (omega arith)
search_send-mem s send_pid (suc fuel) p [] own c h = refl
search_send-mem s send_pid (suc fuel) p (x ∷ xs) own c h =
    let (lt, pv, nx, c') = c in
    let rest =
      ap (search_send s send_pid fuel) nx
      ∙ search_send-mem s send_pid fuel x xs own c' (omega arith) in
    rw (own x lt, ==-false x num_ids (omega arith), rest)
      (elim (Bool-cases (send_pid == x)) [
        | inl same ↦ let same' : (x == send_pid) ≡ true = ground arith in rw (same, same') refl
        | inr other ↦ let other' : (x == send_pid) ≡ false = ground arith in rw (other, other') refl
      ])

module _ (s : Ipc) (xs : List ℕ) (q : IsMsgQueue s xs) where
  -- msg_getBlockBySendID comes to an end and finds the process when it is in the queue.
  pub msg_get_block_by_send_id-mem :
      (fuel send_pid : ℕ)
      → length xs < fuel
      → msg_get_block_by_send_id s fuel send_pid
        ≡ some (if mem send_pid xs then send_pid else num_ids)
  unfolding msg_get_block_by_send_id
  msg_get_block_by_send_id-mem fuel send_pid h =
      ap (search_send s send_pid fuel) q.head_eq
      ∙ search_send-mem s send_pid fuel num_ids xs q.own q.chain h

  must_wait-mem :
      (fuel send_pid cur_pid : ℕ)
      → send_pid < num_ids
      → length xs < fuel
      → must_wait s fuel send_pid cur_pid
        ≡ some (not (mem send_pid xs && ((s.block send_pid).recv_pid == cur_pid)))
  unfolding must_wait
  must_wait-mem fuel send_pid cur_pid lt h =
      rw (msg_get_block_by_send_id-mem fuel send_pid h) (elim (Bool-cases (mem send_pid xs)) [
        | inl here ↦ rw (here, ==-false send_pid num_ids (omega arith)) refl
        | inr away ↦ rw away refl
      ])

search_recv-none :
    (s : Ipc) (recv_pid fuel pid : ℕ)
    → pid < num_ids
    → (s.block pid).recv_pid ≢ recv_pid
    → search_recv s recv_pid fuel pid ≡ none
unfolding search_recv
search_recv-none s recv_pid zero pid lt ne = refl
search_recv-none s recv_pid (suc fuel) pid lt ne =
    rw (==-false pid num_ids (omega arith), ==-false (s.block pid).recv_pid recv_pid ne)
      (search_recv-none s recv_pid fuel pid lt ne)

-- msg_getBlockByRecvID does not come to an end when the first message of the queue is for another
-- process: no number of rounds is enough, whatever the rest of the queue holds.
pub msg_get_block_by_recv_id-none :
    (s : Ipc) (x : ℕ) (xs : List ℕ) (recv_pid : ℕ)
    → IsMsgQueue s (x ∷ xs)
    → (s.block x).recv_pid ≢ recv_pid
    → (fuel : ℕ) → msg_get_block_by_recv_id s fuel recv_pid ≡ none
unfolding msg_get_block_by_recv_id
msg_get_block_by_recv_id-none s x xs recv_pid q ne fuel =
    ap (search_recv s recv_pid fuel) q.head_eq ∙ search_recv-none s recv_pid fuel x q.chain.0 ne

erase-append : (a : ℕ) (xs : List ℕ) → mem a xs ≡ false → erase a (xs ++ (a ∷ [])) ≡ xs
erase-append a [] h = rw (==_refl a) refl
erase-append a (x ∷ xs) h =
    let other : (a == x) ≡ false = ground arith in
    rw other (ap (λ ys. x ∷ ys) (erase-append a xs (ground arith)))

length-snoc : (a : ℕ) (xs : List ℕ) → length (xs ++ (a ∷ [])) ≡ length xs + 1
length-snoc a [] = refl
length-snoc a (x ∷ xs) = ground (arith, length-snoc a xs)

addressed :
    (s : Ipc) (cur_pid recv_pid user_addr len : ℕ)
    → ((post_message s cur_pid recv_pid user_addr len).block cur_pid).recv_pid ≡ recv_pid
unfolding post_message msg_enqueue
addressed s cur_pid recv_pid user_addr len = ground arith

posted_queue :
    (s : Ipc) (xs : List ℕ) (pid recv_pid user_addr len : ℕ)
    → IsMsgQueue s xs
    → pid < num_ids
    → mem pid xs ≡ false
    → IsMsgQueue (post_message s pid recv_pid user_addr len) (xs ++ (pid ∷ []))
unfolding post_message
posted_queue s xs pid recv_pid user_addr len q lt out =
    let filled : Ipc = record s {
      block =
          update s.block pid
            (record (s.block pid) { recv_pid = recv_pid; buffer_addr = user_addr; length = len });
    } in
    msg_enqueue-IsMsgQueue filled pid xs
      (record {
        head_eq = q.head_eq;
        tail_eq = q.tail_eq;
        chain =
            Chain-frame (links s.block) (links filled.block) num_ids xs
              (λ a i. (ground arith, ground arith)) q.chain;
        distinct = q.distinct;
        own = λ a p. let e = q.own a p in ground arith;
      })
      lt out

-- A message from its post to its removal.
pub record IsExchange (s : Ipc) (xs : List ℕ) (fuel pid recv_pid user_addr len : ℕ) : Type 0 where
  pub posted : IsMsgQueue (post_message s pid recv_pid user_addr len) (xs ++ (pid ∷ []))
  pub sender_waits :
      msg_get_block_by_send_id (post_message s pid recv_pid user_addr len) fuel pid ≡ some pid
  pub receiver_goes_on :
      must_wait (post_message s pid recv_pid user_addr len) fuel pid recv_pid ≡ some false
  pub others_wait :
      (other : ℕ)
      → other ≢ recv_pid
      → must_wait (post_message s pid recv_pid user_addr len) fuel pid other ≡ some true
  pub removed : IsMsgQueue (msg_remove (post_message s pid recv_pid user_addr len) pid) xs
  pub sender_goes_on :
      msg_get_block_by_send_id (msg_remove (post_message s pid recv_pid user_addr len) pid) fuel pid
      ≡ some num_ids

-- A process that is not in the queue posts a message: it joins the queue at the end; its own
-- loop waits, the loop of the receiver that it names goes on, and that of any other process waits.
-- After msg_remove the queue is as it was before and the sender goes on. As many rounds as
-- the queue has messages, and one more, are enough for each search.
pub post_message-IsExchange :
    (s : Ipc) (xs : List ℕ) (fuel pid recv_pid user_addr len : ℕ)
    → IsMsgQueue s xs
    → pid < num_ids
    → mem pid xs ≡ false
    → length xs + 1 < fuel
    → IsExchange s xs fuel pid recv_pid user_addr len
post_message-IsExchange s xs fuel pid recv_pid user_addr len q lt out h =
    let posts = posted_queue s xs pid recv_pid user_addr len q lt out in
    let s1 = post_message s pid recv_pid user_addr len in
    let here : mem pid (xs ++ (pid ∷ [])) ≡ true = ground (arith, mem-append pid xs (pid ∷ [])) in
    let long = length-snoc pid xs in
    let gone : IsMsgQueue (msg_remove s1 pid) xs =
      subst (IsMsgQueue (msg_remove s1 pid)) (erase-append pid xs out)
        (msg_remove-IsMsgQueue s1 pid (xs ++ (pid ∷ [])) posts here) in
    record {
      posted = posts;
      sender_waits =
          msg_get_block_by_send_id-mem s1 (xs ++ (pid ∷ [])) posts fuel pid (omega arith)
          ∙ rw here refl;
      receiver_goes_on =
          must_wait-mem s1 (xs ++ (pid ∷ [])) posts fuel pid recv_pid lt (omega arith)
          ∙ rw (here, addressed s pid recv_pid user_addr len, ==_refl recv_pid) refl;
      others_wait = λ other ne.
          must_wait-mem s1 (xs ++ (pid ∷ [])) posts fuel pid other lt (omega arith)
          ∙ rw
              (
                here,
                addressed s pid recv_pid user_addr len,
                ==-false recv_pid other (λ e. ne (sym e)),
              )
              refl;
      removed = gone;
      sender_goes_on =
          msg_get_block_by_send_id-mem (msg_remove s1 pid) xs gone fuel pid (omega arith)
          ∙ rw out refl;
    }
