-- ===== src/Cpu.antt =====
-- The CPU module, src/cpu/src/.
pub mod Registers
pub mod Mmu
pub mod State
pub mod Instructions
pub mod Syscalls
pub mod Cycle
pub mod Confinement
pub mod Interrupts
pub mod Tests
