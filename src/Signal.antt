-- ===== src/Signal.antt =====
-- Signals: the signal state of a thread, the system calls on it, and delivery on the way back to
-- the process.
pub mod State
pub mod Calls
pub mod Deliver
