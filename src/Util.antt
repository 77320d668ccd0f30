-- ===== src/Util.antt =====
-- util.c: numbers in hex and decimal, C strings, escaped bytes, words.
-- A buffer read through a pointer is the list of its bytes from the pointer on; past the end of the
-- list a read gives 0, the terminator. A function that writes through a pointer returns the bytes
-- that it leaves there, from the pointer on. `char` is unsigned on ARM, so a character is a byte.
pub mod Hex
pub mod Decimal
pub mod Swap
pub mod Text
pub mod Escape
mod Tests
