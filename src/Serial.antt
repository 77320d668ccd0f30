-- ===== src/Serial.antt =====
-- The serial driver (serial.c): its ring buffers, its interrupt routines and its device functions.
pub mod Uart
pub mod Api
pub mod Ring
pub mod Receive
pub mod Transmit
pub mod Stream
pub mod Device
pub mod Packets
pub mod Rounds
mod Tests
