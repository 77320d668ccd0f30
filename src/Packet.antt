-- ===== src/Packet.antt =====
-- The packets of the remote protocol (gdb.c): their data and their frames.
pub mod Data
pub mod Device
pub mod Frame
mod Tests
