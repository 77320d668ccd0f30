-- ===== src/Decode/Context.antt =====
-- The saved registers (`rpi2_reg_context_t`, rpi2.h) and what the decoding functions share.
use rpi_stub.Common.{ℕ, List, get_or, ◌==◌, if◌then◌else◌}
use rpi_stub.Instr.Word.{bit}
use rpi_stub.Decode.Int32.{add32}
use rpi_stub.Instr.Next.{NextAddr, Registers, arm_addr, linear}

-- `rpi2_reg_context`: `storage` holds r0 to r15, the CPSR and the SPSR, which `reg` names.
pub record Context : Type 0 where
  pub storage : List ℕ

unfoldable pub stored : Context → ℕ → ℕ
stored c i = get_or c.storage i 0

-- `reg.r15`, `reg.cpsr` and `reg.spsr`
abbrev pub reg_r15 : Context → ℕ
reg_r15 c = stored c 15

abbrev pub reg_cpsr : Context → ℕ
reg_cpsr c = stored c 16

abbrev pub reg_spsr : Context → ℕ
reg_spsr c = stored c 17

-- the registers that `next_address` looks at
abbrev pub registers : Context → Registers
registers c = record { r15 = reg_r15 c; cpsr = reg_cpsr c }

-- `set_addr_lin`
abbrev pub addr_lin : NextAddr
addr_lin = arm_addr linear

-- the value of register `r` as an operand: the PC runs two words ahead
unfoldable pub operand : Context → ℕ → ℕ
unfolding stored
operand c r = if r == 15 then add32 (stored c r) 8 else stored c r

-- `bit(rpi2_reg_context.reg.cpsr, 29)`: the carry flag
unfoldable pub carry : Context → ℕ
unfolding bit stored
carry c = bit (reg_cpsr c) 29
