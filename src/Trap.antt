-- ===== src/Trap.antt =====
-- Traps: the frame, the system call arguments, the handlers and the way back to the process.
pub mod Frame
pub mod Outcome
pub mod Handler
