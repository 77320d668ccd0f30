-- ===== src/Instr/Tests.antt =====
-- Words, conditions and next addresses at concrete instructions.
use rpi_stub.Common.{ℕ, ◌≡◌, refl, inl, ◌&&◌, not, arith}
use rpi_stub.Instr.Word.{bits, sx32, ustuffs8, ustuffu8}
use rpi_stub.Instr.Condition.{
  will_branch, holds, field, flag_c, flag_z, will_branch-holds, will_branch_unsigned,
}
use rpi_stub.Instr.Next.{NextAddr, Registers, arm_addr, linear}

word_runs :
    (bits 0xabcd 0xf0f0 ≡ 0xac)
    × (sx32 0xfffffe 23 0 ≡ 0xfffffffe)
    × (ustuffu8 1 2 3 4 ≡ 0x01020304)
    × (ustuffs8 1 2 3 4 ≡ 0x00000304)
unfolding bits sx32 ustuffu8 ustuffs8
word_runs = (refl, refl, refl, refl)

-- `beq`, `bhi` and `ble` with Z, with C, and with N set
will_branch-holds_example :
    will_branch 0x40000013 0x0a000000 ≡ holds (field 0x0a000000) (field 0x40000013)
will_branch-holds_example =
    will_branch-holds 0x40000013 0x0a000000 (omega arith) (omega arith) (omega arith)

will_branch_unsigned_example :
    will_branch 0x20000013 0x8a000000
    ≡ (not (flag_c (field 0x20000013)) && not (flag_z (field 0x20000013)))
will_branch_unsigned_example = will_branch_unsigned 0x20000013 0x8a000000 (inl refl)

abbrev at_8000 : Registers
at_8000 = record { r15 = 0x8000; cpsr = 0x13 }

abbrev goes_on : ℕ → NextAddr
goes_on instr = arm_addr linear
