-- ===== src/Signal/Deliver/RoundTrip.antt =====
-- sys_sigreturn behind deliver_signal.
use os_project_signal.Prelude.{
  ℕ, ◌+◌, ◌*◌, ◌/◌, ◌%◌, ◌^◌, ◌≤◌, ◌<◌, ◌≡◌, ◌≢◌, ◌⊎◌, inl, refl, ◌∙◌, sym, ap, subst, false, some,
  List, [], ◌∷◌, arith, ◌==◌, ==-false, sub32, length,
}
use os_project_signal.Vmm.Phys.{
  word_bytes, read_word, read_bytes, write_bytes, write_bytes-outside, read_bytes-congr,
  read_bytes-write_bytes, read_word-write_bytes,
}
use os_project_signal.Vmm.Table.{
  Vm, page_size, page_base, pde_of, pte_of, get_pdir_entry, get_ptbl_entry, get_ptbl_entry_by_va,
}
use os_project_signal.Vmm.Map.Laws.{slot_of}
use os_project_signal.Vmm.Copy.{vm_userlo, vm_userhi, pt_copyin}
use os_project_signal.Vmm.Copy.Laws.{pa_of, InPage, pt_copyin-page, pt_copyout-page}
use os_project_signal.Thread.Tcb.{Threads, nsig, get_curid}
use os_project_signal.Thread.Sched.{Kernel}
use os_project_signal.Signal.State.{
  tcb_get_sigaction, tcb_set_signal_context, tcb_get_signal_context, tcb_clear_signal_context,
}
use os_project_signal.Signal.State.Pending.{in_range_eq}
use os_project_signal.Trap.Frame.{Frame, syscall_set_errno, e_succ}
use os_project_signal.Trap.Outcome.{returns}
use os_project_signal.Signal.Calls.{words_of, sys_sigreturn}
use os_project_signal.Signal.Deliver.{trampoline, push, build_stack, deliver_signal}

-- The 28 bytes that deliver_signal writes, from `lo` on, lie in user memory and in one page, which
-- is present and does not hold the entry that maps it.
pub record IsStack (v : Vm) (kva p lo : ℕ) : Type 0 where
  pub one_page : lo % page_size + 28 ≤ page_size
  pub above : vm_userlo ≤ lo
  pub below : lo + 28 ≤ vm_userhi
  pub aligned : lo % 4 ≡ 0
  pub buffer : kva + 28 ≤ vm_userhi
  pub present : get_ptbl_entry_by_va v p lo % 2 ≡ 1
  pub apart :
      slot_of v p lo + 4 ≤ page_base (get_ptbl_entry_by_va v p lo)
      ⊎ (page_base (get_ptbl_entry_by_va v p lo) + page_size ≤ slot_of v p lo)

read_bytes-apart :
    (m : ℕ → ℕ) (a c n : ℕ) (bs : List ℕ)
    → a + length bs ≤ c ⊎ (c + n ≤ a)
    → read_bytes (write_bytes m a bs) c n ≡ read_bytes m c n
read_bytes-apart m a c n bs apart =
    read_bytes-congr (write_bytes m a bs) m c n
      (λ j p q. write_bytes-outside m a bs j (ground arith))

words_of-word_bytes : (w : ℕ) → w < 2 ^ 32 → words_of (word_bytes w) ≡ w ∷ []
words_of-word_bytes w small = ground arith

abbrev with_phys : Vm → (ℕ → ℕ) → Vm
with_phys v m = record v { phys = m }

module _ (v : Vm) (kva p lo : ℕ) (h : IsStack v kva p lo) where
  -- The entry that maps the page is as in `v`.
  abbrev Kept : (ℕ → ℕ) → Type 0
  Kept m = read_word m (slot_of v p lo) ≡ read_word v.phys (slot_of v p lo)

  entry-Kept :
      (m : ℕ → ℕ) (i : ℕ)
      → i < 28
      → Kept m
      → get_ptbl_entry_by_va (with_phys v m) p (lo + i) ≡ get_ptbl_entry_by_va v p lo
  unfolding get_ptbl_entry_by_va get_pdir_entry get_ptbl_entry
  entry-Kept m i lt same =
      let a = h.one_page in
      let d : pde_of (lo + i) ≡ pde_of lo = omega arith in
      let t : pte_of (lo + i) ≡ pte_of lo = omega arith in rw (d, t, same) refl

  pa-Kept :
      (m : ℕ → ℕ) (i : ℕ) → i < 28 → Kept m → pa_of (with_phys v m) p (lo + i) ≡ pa_of v p lo + i
  pa-Kept m i lt same =
      let a = h.one_page in
      let o : (lo + i) % page_size ≡ lo % page_size + i = omega arith in
      rw (entry-Kept m i lt same, o) (omega arith)

  inside :
      (m : ℕ → ℕ) (i n : ℕ) → 0 < n → i + n ≤ 28 → Kept m → InPage (with_phys v m) kva p (lo + i) n
  inside m i n some_bytes fits same =
      let a = h.one_page in
      let b = h.above in
      let c = h.below in
      let d = h.buffer in
      record {
        some_bytes = some_bytes;
        one_page = omega arith;
        above = omega arith;
        below = omega arith;
        buffer = omega arith;
        present = rw (entry-Kept m i (omega arith) same) h.present;
      }

  push-Kept :
      (m : ℕ → ℕ) (i n : ℕ) (bs : List ℕ)
      → 0 < n
      → n ≡ length bs
      → i + n ≤ 28
      → Kept m
      → (push kva (with_phys v m) p (lo + i) bs n
          ≡ with_phys v (write_bytes m (pa_of v p lo + i) bs))
        × Kept (write_bytes m (pa_of v p lo + i) bs)
  unfolding push
  push-Kept m i n bs some_bytes len fits same =
      let out =
        pt_copyout-page (with_phys v m) kva p (lo + i) n (inside m i n some_bytes fits same) bs
          len in
      let a = h.one_page in
      let b = h.apart in
      (
        ap (λ r. r.1) out
            ∙ ap (λ a. with_phys v (write_bytes m a bs)) (pa-Kept m i (omega arith) same),
        read_word-write_bytes m (slot_of v p lo) (pa_of v p lo + i) bs (ground arith) ∙ same,
      )

  -- What the five pushes leave in physical memory.
  abbrev stacked : ℕ → ℕ → ℕ → ℕ
  stacked eip signum =
      let b = pa_of v p lo in
      let m = write_bytes v.phys (b + 24) (word_bytes eip) in
      let m = write_bytes m (b + 20) (word_bytes (lo + 28)) in
      let m = write_bytes m (b + 8) trampoline in
      let m = write_bytes m (b + 4) (word_bytes signum) in
      write_bytes m (b + 0) (word_bytes (lo + 8))

  build_stack-stacked :
      (eip signum : ℕ)
      → (build_stack kva v p (lo + 28) eip signum ≡ with_phys v (stacked eip signum))
        × Kept (stacked eip signum)
  unfolding build_stack
  build_stack-stacked eip signum =
      let top = h.below in
      let al = h.aligned in
      let (e1, k1) = push-Kept v.phys 24 4 (word_bytes eip) (omega arith) refl (omega arith) refl in
      let (e2, k2) = push-Kept _ 20 4 (word_bytes (lo + 28)) (omega arith) refl (omega arith) k1 in
      let (e3, k3) = push-Kept _ 8 12 trampoline (omega arith) refl (omega arith) k2 in
      let (e4, k4) = push-Kept _ 4 4 (word_bytes signum) (omega arith) refl (omega arith) k3 in
      let (e5, k5) = push-Kept _ 0 4 (word_bytes (lo + 8)) (omega arith) refl (omega arith) k4 in
      let a1 : sub32 (lo + 28) 4 ≡ lo + 24 = ground arith in
      let a2 : sub32 (lo + 24) 4 ≡ lo + 20 = ground arith in
      let a3 : sub32 (lo + 20) 12 ≡ lo + 8 = ground arith in
      let a4 : sub32 ((lo + 8) / 4 * 4) 4 ≡ lo + 4 = ground arith in
      let a5 : sub32 (lo + 4) 4 ≡ lo + 0 = ground arith in
      (rw (a1, a2, a3, a4, a5, e1, e2, e3, e4, e5) refl, k5)

  saved_esp :
      (eip signum : ℕ)
      → read_bytes (stacked eip signum) (pa_of v p lo + 20) 4 ≡ word_bytes (lo + 28)
  saved_esp eip signum =
      let b = pa_of v p lo in
      read_bytes-apart _ (b + 0) (b + 20) 4 (word_bytes (lo + 8)) (inl (omega arith))
      ∙ read_bytes-apart _ (b + 4) (b + 20) 4 (word_bytes signum) (inl (omega arith))
      ∙ read_bytes-apart _ (b + 8) (b + 20) 4 trampoline (inl (omega arith))
      ∙ read_bytes-write_bytes _ (b + 20) (word_bytes (lo + 28))

  saved_eip :
      (eip signum : ℕ) → read_bytes (stacked eip signum) (pa_of v p lo + 24) 4 ≡ word_bytes eip
  saved_eip eip signum =
      let b = pa_of v p lo in
      read_bytes-apart _ (b + 0) (b + 24) 4 (word_bytes (lo + 8)) (inl (omega arith))
      ∙ read_bytes-apart _ (b + 4) (b + 24) 4 (word_bytes signum) (inl (omega arith))
      ∙ read_bytes-apart _ (b + 8) (b + 24) 4 trampoline (inl (omega arith))
      ∙ read_bytes-apart _ (b + 20) (b + 24) 4 (word_bytes (lo + 28)) (inl (omega arith))
      ∙ read_bytes-write_bytes _ (b + 24) (word_bytes eip)

  -- pt_copyin of the two saved words.
  copyin-saved :
      (eip signum i : ℕ) (bs : List ℕ)
      → i + 4 ≤ 28
      → read_bytes (stacked eip signum) (pa_of v p lo + i) 4 ≡ bs
      → let w = with_phys v (stacked eip signum) in pt_copyin w p (lo + i) kva 4 ≡ (4, bs, w)
  copyin-saved eip signum i bs fits e =
      let m = stacked eip signum in
      let kept = (build_stack-stacked eip signum).1 in
      pt_copyin-page (with_phys v m) kva p (lo + i) 4 (inside m i 4 (omega arith) fits kept)
      ∙ ap (λ a. (let r : ℕ × List ℕ × Vm = (4, read_bytes m a 4, with_phys v m) in r))
          (pa-Kept m i (omega arith) kept)
      ∙ ap (λ c. (let r : ℕ × List ℕ × Vm = (4, c, with_phys v m) in r)) e

module _ (cpu kva : ℕ) where
  registered :
      (s : Threads) (c n : ℕ) → n < nsig → tcb_get_sigaction s c n ≡ some ((s.pool c).sig.actions n)
  unfolding tcb_get_sigaction
  registered s c n h = rw (in_range_eq n h) refl

  -- What deliver_signal does when a handler is registered.
  deliver_signal-handled :
      (k : Kernel) (tf : Frame) (n : ℕ)
      → n < nsig
      → (((k.thr.pool (k.thr.current cpu)).sig.actions n).handler == 0) ≡ false
      → (deliver_signal cpu kva k tf n).0 ≡ record k {
        vm = build_stack kva k.vm (k.thr.current cpu) tf.esp tf.eip n;
        thr =
            tcb_set_signal_context k.thr
              (k.thr.current cpu)
              (sub32 (sub32 tf.esp 4) 4)
              (sub32 tf.esp 4);
      }
  unfolding deliver_signal get_curid
  deliver_signal-handled k tf n h some_handler =
      rw (deliver_signal, registered k.thr (k.thr.current cpu) n h, some_handler) refl

  sys_sigreturn-restores :
      (k : Kernel) (uf : Frame) (v : Vm) (a b esp eip : ℕ) (xs ys : List ℕ)
      → let c = k.thr.current cpu in
        tcb_get_signal_context k.thr c ≡ (a, b)
        → (a == 0) ≡ false
        → (b == 0) ≡ false
        → k.vm ≡ v
        → pt_copyin v c a kva 4 ≡ (4, xs, v)
        → pt_copyin v c b kva 4 ≡ (4, ys, v)
        → words_of xs ≡ esp ∷ []
        → words_of ys ≡ eip ∷ []
        → sys_sigreturn cpu kva k uf
          ≡ returns
              (record k { vm = v; thr = tcb_clear_signal_context k.thr c })
              (syscall_set_errno (record uf { esp = esp; eip = eip }) e_succ)
  unfolding sys_sigreturn get_curid
  sys_sigreturn-restores k uf v a b esp eip xs ys ctx na nb ev ca cb wx wy =
      rw (ctx, na, nb, ev, ca, cb, wx, wy) refl

  context-set :
      (s : Threads) (c a b : ℕ) → tcb_get_signal_context (tcb_set_signal_context s c a b) c ≡ (a, b)
  unfolding tcb_get_signal_context tcb_set_signal_context
  context-set s c a b = ground arith

  -- sys_sigreturn is the inverse of deliver_signal: after the delivery of a signal with a handler,
  -- whatever frame `uf` the handler calls it with, the stack pointer and the instruction pointer
  -- are those from before the signal, the memory is not changed, and the saved context is cleared;
  -- eax is E_SUCC and the other registers are those of `uf`.The stack is to be aligned and to have
  -- 28 bytes in one page of user memory, which is present and does not hold the entry that maps it.
  pub sys_sigreturn-deliver_signal :
      (k : Kernel) (tf uf : Frame) (n lo : ℕ)
      → n < nsig
      → ((k.thr.pool (k.thr.current cpu)).sig.actions n).handler ≢ 0
      → tf.esp ≡ lo + 28
      → tf.eip < 2 ^ 32
      → IsStack k.vm kva (k.thr.current cpu) lo
      → let k' = (deliver_signal cpu kva k tf n).0 in
        sys_sigreturn cpu kva k' uf
        ≡ returns
            (record k' { thr = tcb_clear_signal_context k'.thr (k.thr.current cpu) })
            (syscall_set_errno (record uf { esp = tf.esp; eip = tf.eip }) e_succ)
  unfolding tcb_set_signal_context
  sys_sigreturn-deliver_signal k tf uf n lo lt some_handler top small h =
      let c = k.thr.current cpu in
      let w = with_phys k.vm (stacked k.vm kva c lo h tf.eip n) in
      let k1 = record k { vm = w; thr = tcb_set_signal_context k.thr c (lo + 20) (lo + 24) } in
      let fits = h.below in
      let a1 : sub32 (lo + 28) 4 ≡ lo + 24 = ground arith in
      let a2 : sub32 (lo + 24) 4 ≡ lo + 20 = ground arith in
      let built = (build_stack-stacked k.vm kva c lo h tf.eip n).0 in
      let delivered : (deliver_signal cpu kva k tf n).0 ≡ k1 =
        deliver_signal-handled k tf n lt (==-false _ 0 some_handler)
        ∙ rw (top, a1, a2, built) refl in
      let back =
        sys_sigreturn-restores k1 uf w (lo + 20) (lo + 24) (lo + 28) tf.eip (word_bytes (lo + 28))
          (word_bytes tf.eip) (context-set k.thr c (lo + 20) (lo + 24)) (==-false _ 0 (omega arith))
          (==-false _ 0 (omega arith)) refl
          (copyin-saved k.vm kva c lo h tf.eip n 20 _ (omega arith)
            (saved_esp k.vm kva c lo h tf.eip n))
          (copyin-saved k.vm kva c lo h tf.eip n 24 _ (omega arith)
            (saved_eip k.vm kva c lo h tf.eip n))
          (words_of-word_bytes (lo + 28) (omega arith)) (words_of-word_bytes tf.eip small) in
      subst
        (λ z.
          sys_sigreturn cpu kva z uf
          ≡ returns (record z { thr = tcb_clear_signal_context z.thr c })
              (syscall_set_errno (record uf { esp = tf.esp; eip = tf.eip }) e_succ))
        (sym delivered) (rw top back)
