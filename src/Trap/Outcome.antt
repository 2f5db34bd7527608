-- ===== src/Trap/Outcome.antt =====
-- How a handler ends: it comes back to its caller in order, or kctx_switch has left
-- its stack, or the kernel stops.
use os_project_signal.Thread.Sched.{Kernel}
use os_project_signal.Trap.Frame.{Frame}

pub data Outcome : Type 0 where
  -- The handler is done, on the stack of its thread.
  returns : Kernel → Frame → Outcome
  -- Another thread runs. When this one runs again it comes back with the frame.
  switches : Kernel → Frame → Outcome
  -- thread_exit has left the stack for good.
  exits : Kernel → Outcome
  -- KERN_PANIC
  panics : Outcome
