-- ===== src/Kernel.antt =====
-- The kernel module, src/kernel/src/.
pub mod Types
pub mod Transitions
pub mod Syscalls
pub mod Exit
pub mod Scheduler
pub mod Ownership
pub mod Mutexes
pub mod Unlocking
pub mod Steps
pub mod Queues
pub mod Unassigning
pub mod Identifiers
pub mod Tests
pub mod Priorities
