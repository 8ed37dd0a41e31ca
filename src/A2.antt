-- ===== src/A2.antt =====
-- The second shell (a2/).
pub mod Pcb
pub mod Memory
pub mod Kernel
pub mod ReadyQueue
pub mod Interpreter
pub mod Shell
pub mod Tests
