-- ===== src/Signal/Deliver/Choice.antt =====
-- Which signal handle_pending_signals takes, and what becomes of it.
use os_project_signal.Prelude.{
  ℕ, zero, suc, ◌+◌, ◌-◌, ◌^◌, ◌≤◌, ◌<◌, ◌≡◌, ◌≢◌, refl, ap, true, false, not, bit_and, arith, ◌==◌,
  bit, bit-lt, bit_and-two_pow, bit_of_zero, Bool-cases, inl, inr, ==-false,
}
use native.Mathlib.Nat.{one-le-pow}
use os_project_signal.Thread.Tcb.{nsig, get_curid}
use os_project_signal.Thread.Sched.{Kernel}
use os_project_signal.Signal.State.{tcb_get_pending_signals}
use os_project_signal.Signal.State.Pending.{is_pending}
use os_project_signal.Signal.Deliver.{handle_one, handle_from, handle_pending_signals}
use os_project_signal.Trap.Frame.{Frame}
use os_project_signal.Trap.Outcome.{returns}

-- The test of the loop reads the bit.
test_of_bit : (p n : ℕ) → (bit_and p (2 ^ n) == 0) ≡ not (bit n p == 1)
test_of_bit p n = grind (arith, bit_and-two_pow n p, bit-lt n p, one-le-pow n 2)

module _ (cpu kva : ℕ) (k : Kernel) (tf : Frame) where
  handle_from-none :
      (p rounds i : ℕ)
      → ((m : ℕ) → i ≤ m → m < i + rounds → (bit m p == 1) ≡ false)
      → handle_from cpu kva k tf p rounds i ≡ returns k tf
  unfolding handle_from
  handle_from-none p zero i h = refl
  handle_from-none p (suc rounds) i h =
      rw (test_of_bit p i, h i (omega arith) (omega arith))
        (handle_from-none p rounds (i + 1) (λ m a b. h m (omega arith) (omega arith)))

  handle_from-first :
      (p rounds i n : ℕ)
      → i ≤ n
      → n < i + rounds
      → (bit n p == 1) ≡ true
      → ((m : ℕ) → i ≤ m → m < n → (bit m p == 1) ≡ false)
      → handle_from cpu kva k tf p rounds i ≡ handle_one cpu kva k tf n
  unfolding handle_from
  handle_from-first p zero i n a b set lower = absurd (omega arith)
  handle_from-first p (suc rounds) i n a b set lower = elim (Bool-cases (i == n)) [
    | inl same ↦ let e : i ≡ n = ground arith in rw (e, test_of_bit p n, set)
    | inr later ↦
        rw (test_of_bit p i, lower i (omega arith) (ground arith))
          (handle_from-first p rounds (i + 1) n (ground arith) (omega arith) set
            (λ m c d. lower m (omega arith) d))
  ]

  -- handle_pending_signals takes the pending signal with the lowest number from 1 to 31, whether
  -- its bit in the block mask is set or not, and only that one.
  pub handle_pending_signals-first :
      (n : ℕ)
      → 1 ≤ n
      → n < nsig
      → is_pending k.thr (k.thr.current cpu) n ≡ true
      → ((m : ℕ) → 1 ≤ m → m < n → is_pending k.thr (k.thr.current cpu) m ≡ false)
      → handle_pending_signals cpu kva k tf ≡ handle_one cpu kva k tf n
  unfolding handle_pending_signals tcb_get_pending_signals get_curid
  handle_pending_signals-first n a b set lower =
      let p = (k.thr.pool (k.thr.current cpu)).sig.pending in
      let some_set : p ≢ 0 = λ e. ground (arith, bit_of_zero n, ap (λ q. bit n q) e) in
      rw (==-false p 0 some_set) (handle_from-first p (nsig - 1) 1 n a (omega arith) set lower)

  -- With no signal from 1 on pending, it goes back to the process and changes nothing.
  pub handle_pending_signals-none :
      ((m : ℕ) → 1 ≤ m → m < nsig → is_pending k.thr (k.thr.current cpu) m ≡ false)
      → handle_pending_signals cpu kva k tf ≡ returns k tf
  unfolding handle_pending_signals tcb_get_pending_signals get_curid
  handle_pending_signals-none none_set =
      let p = (k.thr.pool (k.thr.current cpu)).sig.pending in
      rw (handle_from-none p (nsig - 1) 1 (λ m a b. none_set m a (omega arith))) (ground arith)
