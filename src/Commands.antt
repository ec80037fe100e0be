-- ===== src/Commands.antt =====
-- cmd: the commands of the program, with their flags and their places in the configuration, and what
-- each starts.
pub mod Flags
pub mod Init
pub mod Run
pub mod Root
mod Tests
