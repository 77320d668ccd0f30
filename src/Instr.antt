-- ===== src/Instr.antt =====
-- What an instruction does next (instr.c, instr_comm.c, instr_util.c).
pub mod Word
pub mod Condition
pub mod Next
mod Tests
