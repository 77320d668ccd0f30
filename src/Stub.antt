-- ===== src/Stub.antt =====
-- The debugger's own state (gdb.c) and what it does to the debuggee's memory and debug hardware.
pub mod Memory
pub mod Breakpoints
pub mod Watchpoints
pub mod Step
mod Tests
