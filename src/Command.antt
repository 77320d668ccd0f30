-- ===== src/Command.antt =====
-- The client's commands (the gdb_cmd functions of gdb.c) that read and write memory: their arguments,
-- what they do to the memory, and the payload of the answer.
pub mod Argument
pub mod Breakpoint
pub mod Memory
pub mod RegisterFile
pub mod Registers
mod Tests
