-- ===== src/Signal/State/Pending.antt =====
-- The pending signals as a set of numbers.
use os_project_signal.Prelude.{
  ℕ, ◌-◌, ◌^◌, ◌<◌, ◌≡◌, Bool, true, ◌&&◌, ◌||◌, not, bit_and, bit_or, arith, ◌==◌, if◌then◌else◌,
  bit, bit-bit_or, bit-bit_and, bit-two_pow, bit-complement, bit-lt, Bool-cases, inl, inr,
}
use os_project_signal.Thread.Tcb.{Threads, nsig}
use os_project_signal.Signal.State.{in_range, tcb_add_pending_signal, tcb_clear_pending_signal}

-- Signal `n` is pending for the thread.
abbrev pub is_pending : Threads → ℕ → ℕ → Bool
is_pending s pid n = bit n (s.pool pid).sig.pending == 1

pub in_range_eq : (n : ℕ) → n < nsig → in_range n ≡ true
in_range_eq n h = ground arith

bit-add :
    (p m n : ℕ)
    → m < nsig
    → n < nsig
    → (bit m (bit_or p (2 ^ n)) == 1) ≡ ((m == n) || (bit m p == 1))
bit-add p m n h k = ground (arith, bit-bit_or m p (2 ^ n), bit-two_pow m n, bit-lt m p)

bit-clear :
    (p m n : ℕ)
    → m < nsig
    → n < nsig
    → (bit m (bit_and p (2 ^ 32 - 1 - 2 ^ n)) == 1) ≡ (not (m == n) && (bit m p == 1))
bit-clear p m n h k =
    ground (arith, bit-bit_and m p (2 ^ 32 - 1 - 2 ^ n), bit-complement m n h k, bit-lt m p)

module _ (s : Threads) (pid n : ℕ) (h : n < nsig) where
  pending-add :
      (q : ℕ)
      → ((tcb_add_pending_signal s pid n).pool q).sig.pending
        ≡ (if q == pid then bit_or (s.pool pid).sig.pending (2 ^ n) else (s.pool q).sig.pending)
  unfolding tcb_add_pending_signal
  pending-add q = rw (in_range_eq n h) (ground arith)

  pending-clear :
      (q : ℕ)
      → ((tcb_clear_pending_signal s pid n).pool q).sig.pending ≡ (
          if q == pid
          then bit_and (s.pool pid).sig.pending (2 ^ 32 - 1 - 2 ^ n)
          else (s.pool q).sig.pending)
  unfolding tcb_clear_pending_signal
  pending-clear q = rw (in_range_eq n h) (ground arith)

  -- tcb_add_pending_signal adds the signal to the set of its thread, and changes no other
  -- membership, of this thread or another.
  pub is_pending-tcb_add_pending_signal :
      (q m : ℕ)
      → m < nsig
      → is_pending (tcb_add_pending_signal s pid n) q m
        ≡ (((q == pid) && (m == n)) || is_pending s q m)
  is_pending-tcb_add_pending_signal q m k = rw (pending-add q) (elim (Bool-cases (q == pid)) [
    | inl same ↦
        let e : q ≡ pid = ground arith in rw (same, e) (bit-add (s.pool pid).sig.pending m n k h)
    | inr other ↦ rw other
  ])

  -- tcb_clear_pending_signal takes the signal out of the set of its thread, and changes no other
  -- membership.
  pub is_pending-tcb_clear_pending_signal :
      (q m : ℕ)
      → m < nsig
      → is_pending (tcb_clear_pending_signal s pid n) q m
        ≡ (not ((q == pid) && (m == n)) && is_pending s q m)
  is_pending-tcb_clear_pending_signal q m k = rw (pending-clear q) (elim (Bool-cases (q == pid)) [
    | inl same ↦
        let e : q ≡ pid = ground arith in rw (same, e) (bit-clear (s.pool pid).sig.pending m n k h)
    | inr other ↦ rw other
  ])
