-- ===== src/Decode/Branch.antt =====
-- `arm_branch` (ARM_decode_table.c): where B, BL, BLX, BX and BXJ lead.
pub mod Target
pub mod Next
pub mod Register
use rpi_stub.Common.{ℕ, ◌*◌, ◌%◌, ◌^◌, ◌==◌, if◌then◌else◌, bit_and, bit_or}
use rpi_stub.Instr.Next.{NextAddr, undef_addr, unpred_addr, arm_addr, thumb_addr}
use rpi_stub.Instr.Word.{bit, bitrng, sx32}
use rpi_stub.Instr.Condition.{will_branch}
use rpi_stub.Decode.Extra.{
  Extra, arm_bra_b_lbl, arm_bra_bl_lbl, arm_bra_blx_lbl, arm_bra_bx_r, arm_bra_blx_r, arm_bra_bxj_r,
}
use rpi_stub.Decode.Context.{Context, stored, reg_r15, reg_cpsr, addr_lin}
use rpi_stub.Decode.Int32.{add32}

-- the cases of a label: `baddr` is an `int`, kept as its 32 bits
unfoldable pub to_label : Context → ℕ → NextAddr
unfolding sx32 add32 stored
to_label c instr = arm_addr (add32 (add32 (reg_r15 c) 8) (sx32 instr 23 0 * 4 % 2 ^ 32))

unfoldable pub to_thumb_label : Context → ℕ → NextAddr
unfolding sx32 bit add32 stored
to_thumb_label c instr =
    thumb_addr
      (add32 (add32 (reg_r15 c) 8) (bit_or (sx32 instr 23 0 * 4 % 2 ^ 32) (bit instr 24 * 2)))

-- the cases of a register, and their last test
unfoldable pub by_address : ℕ → NextAddr
unfolding bit
by_address address =
    if bit address 0 == 0
    then if bit address 1 == 0 then arm_addr (bit_and address 0xfffffffc) else unpred_addr addr_lin
    else thumb_addr (bit_and address 0xfffffffe)

unfoldable pub to_register : Context → ℕ → NextAddr
unfolding by_address bitrng stored
to_register c instr =
    let retval = by_address (stored c (bitrng instr 3 0)) in
    if bitrng instr 3 0 == 15 then unpred_addr retval else retval

-- the `switch`
unfoldable pub branch_to : Context → ℕ → Extra → NextAddr
unfolding to_label to_thumb_label to_register
branch_to c instr arm_bra_b_lbl = to_label c instr
branch_to c instr arm_bra_bl_lbl = to_label c instr
branch_to c instr arm_bra_blx_lbl = to_thumb_label c instr
branch_to c instr arm_bra_bx_r = to_register c instr
branch_to c instr arm_bra_blx_r = to_register c instr
branch_to c instr arm_bra_bxj_r = to_register c instr
branch_to c instr _ = undef_addr

-- `arm_branch`
unfoldable pub arm_branch : Context → ℕ → Extra → NextAddr
unfolding branch_to will_branch
arm_branch c instr extra =
    if will_branch (reg_cpsr c) instr then branch_to c instr extra else addr_lin
