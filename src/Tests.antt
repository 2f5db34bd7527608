-- ===== src/Tests.antt =====
-- The theorems at concrete inputs, and runs of the definitions.
pub mod Fs
pub mod Files
pub mod Calls
pub mod State
pub mod Sched
pub mod Memory
pub mod Signals
