-- ===== src/Signal/State.antt =====
-- The signal accessors of kern/thread/PTCBIntro/PTCBIntro.c. A signal number is an `int`, given
-- by its bit pattern; the pending signals are the bits of a `uint32_t`.
pub mod Pending
use os_project_signal.Prelude.{
  ℕ, ◌-◌, ◌^◌, ◌≡◌, Bool, true, false, ◌&&◌, not, Option, none, some, bit_and, bit_or, ◌==◌,
  if◌then◌else◌, int_lt, update,
}
use os_project_signal.Thread.Tcb.{Threads, SigAction, SigState, nsig, set_tcb}

abbrev pub sigint : ℕ
sigint = 2

abbrev pub sigkill : ℕ
sigkill = 9

abbrev pub sigsegv : ℕ
sigsegv = 11

-- `signum >= 0 && signum < NSIG`
abbrev pub in_range : ℕ → Bool
in_range signum = not (int_lt signum 0) && int_lt signum nsig

module _ (s : Threads) (pid : ℕ) where
  abbrev sig : SigState
  sig = (s.pool pid).sig

  abbrev set_sig : SigState → Threads
  set_sig g = set_tcb s pid (record (s.pool pid) { sig = g })

  -- `none` is NULL.
  unfoldable pub tcb_get_sigaction : ℕ → Option SigAction
  tcb_get_sigaction signum = if in_range signum then some (sig.actions signum) else none

  unfoldable pub tcb_set_sigaction : ℕ → SigAction → Threads
  tcb_set_sigaction signum act =
      if in_range signum
      then set_sig (record sig { actions = update sig.actions signum act })
      else s

  unfoldable pub tcb_get_pending_signals : ℕ
  tcb_get_pending_signals = sig.pending

  unfoldable pub tcb_set_pending_signals : ℕ → Threads
  tcb_set_pending_signals signals = set_sig (record sig { pending = signals })

  unfoldable pub tcb_add_pending_signal : ℕ → Threads
  tcb_add_pending_signal signum =
      if in_range signum
      then set_sig (record sig { pending = bit_or sig.pending (2 ^ signum) })
      else s

  unfoldable pub tcb_clear_pending_signal : ℕ → Threads
  tcb_clear_pending_signal signum =
      if in_range signum
      then set_sig (record sig { pending = bit_and sig.pending (2 ^ 32 - 1 - 2 ^ signum) })
      else s

  unfoldable pub tcb_set_signal_context : ℕ → ℕ → Threads
  tcb_set_signal_context saved_esp_addr saved_eip_addr = set_sig (record sig {
    saved_esp_addr = saved_esp_addr;
    saved_eip_addr = saved_eip_addr;
    in_handler = 1;
  })

  unfoldable pub tcb_get_signal_context : ℕ × ℕ
  tcb_get_signal_context = (sig.saved_esp_addr, sig.saved_eip_addr)

  unfoldable pub tcb_clear_signal_context : Threads
  tcb_clear_signal_context =
      set_sig (record sig { saved_esp_addr = 0; saved_eip_addr = 0; in_handler = 0 })

  unfoldable pub tcb_in_signal_handler : ℕ
  tcb_in_signal_handler = sig.in_handler
