-- ===== src/A3.antt =====
-- The third shell (a3/).
pub mod LinkedList
pub mod Kernel
pub mod Memory
pub mod Pcb
pub mod Shell
pub mod Tests
pub mod Commands
pub mod Interpreter
pub mod Os
pub mod FileCommands
