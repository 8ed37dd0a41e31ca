-- ===== src/A1.antt =====
-- The first shell (a1/).
pub mod Memory
pub mod Words
pub mod Parsing
pub mod Interpreter
pub mod Commands
pub mod Tests
