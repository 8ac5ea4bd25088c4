-- ===== src/WorkQueue.antt =====
-- src/workqueue.c and src/workqueue.h.
pub mod Links
pub mod Machine
pub mod Stack
pub mod Invariant
pub mod Safety
pub mod Exit
pub mod Leaving
pub mod Wakeup
pub mod Flags
pub mod Progress
mod Examples
