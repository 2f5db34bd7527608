-- ===== src/Thread.antt =====
-- Threads and the scheduler: kern/thread.
pub mod Tcb
pub mod Queue
pub mod Sched
