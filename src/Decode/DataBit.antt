-- ===== src/Decode/DataBit.antt =====
-- `arm_core_data_bit` (ARM_decode_table.c): MOV and the shifts. `uninit` is what the variable
-- `tmp3` holds where nothing was assigned to it.
pub mod MovPc
use rpi_stub.Common.{ℕ, ◌-◌, ◌+◌, ◌/◌, ◌^◌, ◌==◌, ltb, if◌then◌else◌, bit_and}
use rpi_stub.Instr.Next.{NextAddr, unpred_addr, arm_addr, thumb_addr}
use rpi_stub.Instr.Word.{bitrng}
use rpi_stub.Decode.Extra.{
  Extra, arm_ret_asr_imm, arm_cdata_asr_imm, arm_ret_lsr_imm, arm_cdata_lsr_imm, arm_ret_lsl_imm,
  arm_cdata_lsl_imm, arm_ret_mov_pc, arm_cdata_mov_r, arm_ret_ror_imm, arm_cdata_ror_imm,
  arm_ret_rrx_pc, arm_cdata_rrx_r, arm_cdata_asr_r, arm_cdata_lsl_r, arm_cdata_lsr_r,
  arm_cdata_ror_r,
}
use rpi_stub.Decode.Context.{Context, operand, carry, addr_lin}
use rpi_stub.Decode.Int32.{shl32, asr32}
use rpi_stub.Decode.Shift.{joined, with_carry}
use rpi_stub.Decode.Return.{returned_bit}

-- the rotation by `n`, where `bitrng` takes one bit more than those that drop out
unfoldable pub rotated_bits : ℕ → ℕ → ℕ
unfolding joined shl32 bitrng
rotated_bits x n = joined (x / 2 ^ n) (shl32 (bitrng x n 0) (32 - n)) n

-- the first `switch`: the result, from Rm or Rn and the instruction
unfoldable pub bit_result : Context → ℕ → ℕ → ℕ → Extra → ℕ
unfolding bitrng operand carry shl32 asr32 with_carry rotated_bits
bit_result c uninit instr x arm_ret_asr_imm = asr32 x (bitrng instr 11 7)
bit_result c uninit instr x arm_cdata_asr_imm = asr32 x (bitrng instr 11 7)
bit_result c uninit instr x arm_ret_lsr_imm = x / 2 ^ bitrng instr 11 7
bit_result c uninit instr x arm_cdata_lsr_imm = x / 2 ^ bitrng instr 11 7
bit_result c uninit instr x arm_ret_lsl_imm = shl32 x (bitrng instr 11 7)
bit_result c uninit instr x arm_cdata_lsl_imm = shl32 x (bitrng instr 11 7)
bit_result c uninit instr x arm_ret_mov_pc = x
bit_result c uninit instr x arm_cdata_mov_r = x
bit_result c uninit instr x arm_ret_ror_imm = rotated_bits x (bitrng instr 11 7)
bit_result c uninit instr x arm_cdata_ror_imm = rotated_bits x (bitrng instr 11 7)
bit_result c uninit instr x arm_ret_rrx_pc = with_carry x (carry c)
bit_result c uninit instr x arm_cdata_rrx_r = with_carry x (carry c)
bit_result c uninit instr x arm_cdata_asr_r = asr32 x (bit_and (operand c (bitrng instr 11 8)) 0x1f)
bit_result c uninit instr x arm_cdata_lsl_r =
    let n = operand c (bitrng instr 11 8) in if ltb 31 n then 0 else shl32 x (bit_and n 0x1f)
bit_result c uninit instr x arm_cdata_lsr_r =
    let n = operand c (bitrng instr 11 8) in if ltb 31 n then 0 else x / 2 ^ bit_and n 0x1f
bit_result c uninit instr x arm_cdata_ror_r =
    let n = bit_and (operand c (bitrng instr 11 8)) 0x1f in if n == 0 then x else rotated_bits x n
bit_result c uninit instr x _ = uninit

-- the cases of a shift by a register in the second `switch`
unfoldable pub register_shift : ℕ → ℕ → NextAddr
unfolding bitrng
register_shift instr tmp3 =
    if bitrng instr 15 12 == 15
    then unpred_addr (
        if bit_and tmp3 1 == 0
        then if bit_and tmp3 3 == 0 then arm_addr tmp3 else thumb_addr tmp3
        else thumb_addr tmp3)
    else addr_lin

-- the second `switch`
unfoldable pub bit_case : Context → ℕ → ℕ → Extra → NextAddr
unfolding returned_bit register_shift
bit_case c instr tmp3 arm_ret_asr_imm = returned_bit c instr tmp3
bit_case c instr tmp3 arm_ret_lsr_imm = returned_bit c instr tmp3
bit_case c instr tmp3 arm_ret_lsl_imm = returned_bit c instr tmp3
bit_case c instr tmp3 arm_ret_ror_imm = returned_bit c instr tmp3
bit_case c instr tmp3 arm_ret_rrx_pc = returned_bit c instr tmp3
bit_case c instr tmp3 arm_ret_mov_pc = returned_bit c instr tmp3
bit_case c instr tmp3 arm_cdata_asr_r = register_shift instr tmp3
bit_case c instr tmp3 arm_cdata_lsl_r = register_shift instr tmp3
bit_case c instr tmp3 arm_cdata_lsr_r = register_shift instr tmp3
bit_case c instr tmp3 arm_cdata_ror_r = register_shift instr tmp3
bit_case c instr tmp3 _ = addr_lin

-- `arm_core_data_bit`
unfoldable pub arm_core_data_bit : Context → ℕ → ℕ → Extra → NextAddr
unfolding bitrng operand bit_result bit_case
arm_core_data_bit c uninit instr extra =
    let x = operand c (bitrng instr 3 0) in
    let tmp3 = if bitrng instr 15 12 == 15 then bit_result c uninit instr x extra else uninit in
    bit_case c instr tmp3 extra
