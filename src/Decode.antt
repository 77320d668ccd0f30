-- ===== src/Decode.antt =====
-- The decoder of ARM instructions (ARM_decode_table.c): the table, the search in it, and the
-- functions that work out where an instruction leads.
pub mod Extra
pub mod Row
pub mod Table
pub mod Search
pub mod Narrow
pub mod Specific
pub mod Int32
pub mod Context
pub mod Coproc
pub mod Divide
pub mod Multiply
pub mod MultiplyLong
pub mod Shift
pub mod Return
pub mod Alu
pub mod DataBit
pub mod DataReg
pub mod DataShift
pub mod DataImm
pub mod LoadMultiple
pub mod Load
pub mod Mux
pub mod Vector
pub mod Misc
pub mod Exception
pub mod Decoder
mod Tests
pub mod Branch
