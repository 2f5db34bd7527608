-- ===== src/Thread/Queue/Remove.antt =====
-- tqueue_remove takes a thread out of the middle of its queue.
use mathlib.Core.List.{append-nil}
use os_project_signal.Prelude.{
  ℕ, ◌<◌, ◌≡◌, ◌≢◌, refl, true, false, List, [], ◌∷◌, ◌++◌, arith, ◌==◌, if◌then◌else◌, mem,
  Distinct, head_or, last_or, erase, mem-append, mem-last_or, Distinct-erase, sym, ◌∙◌, ==-false,
  ap, subst, Bool-cases, inl, inr,
}
use os_project_signal.Pmm.Container.{num_ids}
use os_project_signal.Thread.Tcb.{
  Tcb, Threads, tcb_get_prev, tcb_set_prev, tcb_get_next, tcb_set_next, tqueue_set_head,
  tqueue_set_tail,
}
use os_project_signal.Thread.Queue.{tqueue_remove}
use os_project_signal.Thread.Queue.Chain.{Chain, Chain-erase, mem-Chain-lt, ne_of_mem, mem-num_ids}
use os_project_signal.Thread.Queue.Laws.{IsQueue}

module _ (cpu : ℕ) (s : Threads) (chid pid p n : ℕ) (hp : (s.pool pid).prev ≡ p)
    (hn : (s.pool pid).next ≡ n) where
  remove_ends :
      let s' = tqueue_remove cpu s chid pid in
      ((s'.queues cpu chid).head ≡ (if p == num_ids then n else (s.queues cpu chid).head))
      × ((s'.queues cpu chid).tail ≡ (if n == num_ids then p else (s.queues cpu chid).tail))
  unfolding tqueue_remove tqueue_set_head tqueue_set_tail tcb_get_prev tcb_get_next tcb_set_prev
      tcb_set_next
  remove_ends = rw (hp, hn) (ground arith)

  remove_prevs :
      (a : ℕ)
      → a ≢ pid
      → a < num_ids
      → ((tqueue_remove cpu s chid pid).pool a).prev ≡ (if a == n then p else (s.pool a).prev)
  unfolding tqueue_remove tqueue_set_head tqueue_set_tail tcb_get_prev tcb_get_next tcb_set_prev
      tcb_set_next
  remove_prevs a ne lt = rw (hp, hn) (ground arith)

  remove_nexts :
      (p ≡ n → p ≡ num_ids)
      → (a : ℕ) → a ≢ pid
      → a < num_ids
      → ((tqueue_remove cpu s chid pid).pool a).next ≡ (if a == p then n else (s.pool a).next)
  unfolding tqueue_remove tqueue_set_head tqueue_set_tail tcb_get_prev tcb_get_next tcb_set_prev
      tcb_set_next
  remove_nexts apart a ne lt = rw (hp, hn) (ground arith)

pub Chain-at :
    (f : ℕ → Tcb) (q pid : ℕ) (xs bs : List ℕ)
    → Chain f q (xs ++ (pid ∷ bs))
    → ((f pid).prev ≡ last_or xs q) × ((f pid).next ≡ head_or bs num_ids)
Chain-at f q pid [] bs c = (c.1, c.2)
Chain-at f q pid (x ∷ xs) bs c = Chain-at f x pid xs bs c.3

last_or-middle : (d pid : ℕ) (xs bs : List ℕ) → last_or (xs ++ (pid ∷ bs)) d ≡ last_or bs pid
last_or-middle d pid [] bs = refl
last_or-middle d pid (x ∷ xs) bs = last_or-middle x pid xs bs

-- A list that holds `pid`, cut at its first place.
pub split_at :
    (pid : ℕ) (ys : List ℕ)
    → mem pid ys ≡ true
    → (xs : List ℕ) × (bs : List ℕ) × (ys ≡ xs ++ (pid ∷ bs)) × (erase pid ys ≡ xs ++ bs)
split_at pid [] i = absurd (cc)
split_at pid (y ∷ ys) i = elim (Bool-cases (pid == y)) [
  | inl e ↦ ([], ys, ground arith, ground arith)
  | inr ne ↦
      let (xs, bs, e₁, e₂) = split_at pid ys (ground arith) in
      (y ∷ xs, bs, ap (λ l. y ∷ l) e₁, rw ne (ap (λ l. y ∷ l) e₂))
]

-- The two neighbours of a thread are different threads.
neighbours :
    (pid p : ℕ) (xs bs : List ℕ)
    → Distinct (xs ++ (pid ∷ bs))
    → mem p (xs ++ (pid ∷ bs)) ≡ false
    → (b : ℕ) → mem b bs ≡ true
    → last_or xs p ≢ b
neighbours pid p [] bs d out b i = λ e'. ne_of_mem b p (pid ∷ bs) (ground arith) out (sym e')
neighbours pid p (x ∷ xs) bs d out b i = neighbours pid x xs bs d.1 d.0 b i

pub apart_ends :
    (pid : ℕ) (xs bs : List ℕ)
    → Distinct (xs ++ (pid ∷ bs))
    → mem num_ids (xs ++ (pid ∷ bs)) ≡ false
    → last_or xs num_ids ≡ head_or bs num_ids
    → last_or xs num_ids ≡ num_ids
apart_ends pid xs [] d out e = e
apart_ends pid xs (b ∷ bs) d out e =
    absurd (neighbours pid num_ids xs (b ∷ bs) d out b (ground arith) e)

pub head-removed :
    (f : ℕ → Tcb) (pid h : ℕ) (xs bs : List ℕ)
    → Chain f num_ids (xs ++ (pid ∷ bs))
    → h ≡ head_or (xs ++ (pid ∷ bs)) num_ids
    → (if last_or xs num_ids == num_ids then head_or bs num_ids else h) ≡ head_or (xs ++ bs) num_ids
head-removed f pid h [] bs c e = refl
head-removed f pid h (x ∷ xs) bs c e =
    let in_list = mem-last_or x xs in
    let whole = mem-append (last_or xs x) (x ∷ xs) (pid ∷ bs) in
    let lt = mem-Chain-lt f num_ids (last_or xs x) (x ∷ xs ++ (pid ∷ bs)) c (rw (whole, in_list)) in
    rw (==-false (last_or xs x) num_ids (omega arith)) e

pub tail-removed :
    (f : ℕ → Tcb) (pid t : ℕ) (xs bs : List ℕ)
    → Chain f num_ids (xs ++ (pid ∷ bs))
    → t ≡ last_or (xs ++ (pid ∷ bs)) num_ids
    → (if head_or bs num_ids == num_ids then last_or xs num_ids else t) ≡ last_or (xs ++ bs) num_ids
tail-removed f pid t xs [] c e = rw append-nil
tail-removed f pid t xs (b ∷ bs) c e =
    let inside : mem b (xs ++ (pid ∷ b ∷ bs)) ≡ true =
      ground (arith, mem-append b xs (pid ∷ b ∷ bs)) in
    let lt = mem-Chain-lt f num_ids b (xs ++ (pid ∷ b ∷ bs)) c inside in
    rw (==-false b num_ids (omega arith))
      (e ∙ last_or-middle num_ids pid xs (b ∷ bs) ∙ sym (last_or-middle num_ids b xs bs))

module _ (cpu : ℕ) (s : Threads) (chid : ℕ) where
  remove_split :
      (pid : ℕ) (xs bs : List ℕ)
      → IsQueue cpu s chid (xs ++ (pid ∷ bs))
      → Distinct (xs ++ bs)
      → IsQueue cpu (tqueue_remove cpu s chid pid) chid (xs ++ bs)
  remove_split pid xs bs q d =
      let (hp, hn) = Chain-at s.pool num_ids pid xs bs q.chain in
      let null = mem-num_ids s.pool num_ids (xs ++ (pid ∷ bs)) q.chain in
      let (e₁, e₂) = remove_ends cpu s chid pid (last_or xs num_ids) (head_or bs num_ids) hp hn in
      record {
        head_eq = e₁ ∙ head-removed s.pool pid _ xs bs q.chain q.head_eq;
        tail_eq = e₂ ∙ tail-removed s.pool pid _ xs bs q.chain q.tail_eq;
        chain =
            Chain-erase s.pool (tqueue_remove cpu s chid pid).pool pid num_ids xs bs null q.distinct
              (record {
                prevs = remove_prevs cpu s chid pid (last_or xs num_ids) (head_or bs num_ids) hp hn;
                nexts =
                    remove_nexts cpu s chid pid (last_or xs num_ids) (head_or bs num_ids) hp hn
                      (apart_ends pid xs bs q.distinct null);
              })
              q.chain;
        distinct = d;
      }

  -- tqueue_remove takes a thread that is in the queue out of it, and leaves the others in order.
  pub tqueue_remove-IsQueue :
      (pid : ℕ) (ys : List ℕ)
      → IsQueue cpu s chid ys
      → mem pid ys ≡ true
      → IsQueue cpu (tqueue_remove cpu s chid pid) chid (erase pid ys)
  tqueue_remove-IsQueue pid ys q i =
      let (xs, bs, e₁, e₂) = split_at pid ys i in
      subst (IsQueue cpu (tqueue_remove cpu s chid pid) chid) (sym e₂) (
        remove_split pid xs bs (subst (IsQueue cpu s chid) e₁ q)
          (subst Distinct e₂ (Distinct-erase pid ys q.distinct)))
