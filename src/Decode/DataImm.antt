-- ===== src/Decode/DataImm.antt =====
-- `arm_core_data_std_i` (ARM_decode_table.c): data processing with an immediate.
pub mod Alu
use rpi_stub.Common.{ℕ, ◌*◌, Bool, true, false, ◌==◌, if◌then◌else◌, bit_and, bit_xor}
use rpi_stub.Instr.Next.{NextAddr, undef_addr, unpred_addr, arm_addr}
use rpi_stub.Instr.Word.{bitrng}
use rpi_stub.Decode.Extra.{
  Extra, arm_cdata_cmn_imm, arm_cdata_cmp_imm, arm_cdata_teq_imm, arm_cdata_tst_imm,
  arm_cdata_adc_imm, arm_ret_adc_imm, arm_cdata_add_imm, arm_cdata_add_imm_sp, arm_ret_add_imm,
  arm_cdata_adr_lbla, arm_cdata_adr_lblb, arm_cdata_and_imm, arm_cdata_bic_imm, arm_ret_bic_imm,
  arm_cdata_eor_imm, arm_ret_eor_imm, arm_cdata_mov_imm, arm_ret_mov_imm, arm_cdata_mvn_imm,
  arm_ret_mvn_imm, arm_cdata_orr_imm, arm_cdata_rsb_imm, arm_ret_rsb_imm, arm_cdata_rsc_imm,
  arm_ret_rsc_imm, arm_cdata_sbc_imm, arm_ret_sbc_imm, arm_cdata_sub_imm, arm_cdata_sub_imm_sp,
  arm_ret_sub_imm,
}
use rpi_stub.Decode.Context.{Context, stored, operand, carry, reg_r15, addr_lin}
use rpi_stub.Decode.Int32.{add32, sub32, not32, shl32}
use rpi_stub.Decode.Shift.{shift_imm, shift_reg, rotated, kept, mask_from}
use rpi_stub.Decode.Return.{returned}

-- the instructions that have no Rd
unfoldable pub compares_imm : Extra → Bool
compares_imm arm_cdata_cmn_imm = true
compares_imm arm_cdata_cmp_imm = true
compares_imm arm_cdata_teq_imm = true
compares_imm arm_cdata_tst_imm = true
compares_imm _ = false

-- the `switch` over the operation
unfoldable pub operate_imm : Context → ℕ → ℕ → Extra → NextAddr
unfolding add32 sub32 not32 carry stored
operate_imm c tmp1 tmp2 arm_cdata_adc_imm = arm_addr (add32 (add32 tmp1 tmp2) (carry c))
operate_imm c tmp1 tmp2 arm_ret_adc_imm = arm_addr (add32 (add32 tmp1 tmp2) (carry c))
operate_imm c tmp1 tmp2 arm_cdata_add_imm = arm_addr (add32 tmp1 tmp2)
operate_imm c tmp1 tmp2 arm_cdata_add_imm_sp = arm_addr (add32 tmp1 tmp2)
operate_imm c tmp1 tmp2 arm_ret_add_imm = arm_addr (add32 tmp1 tmp2)
operate_imm c tmp1 tmp2 arm_cdata_adr_lbla = arm_addr (add32 (bit_and (reg_r15 c) 0xfffffffc) tmp2)
operate_imm c tmp1 tmp2 arm_cdata_adr_lblb = arm_addr (sub32 (bit_and (reg_r15 c) 0xfffffffc) tmp2)
operate_imm c tmp1 tmp2 arm_cdata_and_imm = arm_addr (bit_and tmp1 tmp2)
operate_imm c tmp1 tmp2 arm_cdata_bic_imm = arm_addr (bit_and tmp1 (not32 tmp2))
operate_imm c tmp1 tmp2 arm_ret_bic_imm = arm_addr (bit_and tmp1 (not32 tmp2))
operate_imm c tmp1 tmp2 arm_cdata_eor_imm = arm_addr (bit_xor tmp1 tmp2)
operate_imm c tmp1 tmp2 arm_ret_eor_imm = arm_addr (bit_xor tmp1 tmp2)
operate_imm c tmp1 tmp2 arm_cdata_mov_imm = arm_addr tmp2
operate_imm c tmp1 tmp2 arm_ret_mov_imm = arm_addr tmp2
operate_imm c tmp1 tmp2 arm_cdata_mvn_imm = arm_addr (not32 tmp2)
operate_imm c tmp1 tmp2 arm_ret_mvn_imm = arm_addr (not32 tmp2)
operate_imm c tmp1 tmp2 arm_cdata_orr_imm = arm_addr (bit_and tmp1 tmp2)
operate_imm c tmp1 tmp2 arm_cdata_rsb_imm = arm_addr (sub32 tmp2 tmp1)
operate_imm c tmp1 tmp2 arm_ret_rsb_imm = arm_addr (sub32 tmp2 tmp1)
operate_imm c tmp1 tmp2 arm_cdata_rsc_imm = arm_addr (add32 (add32 (not32 tmp1) tmp2) (carry c))
operate_imm c tmp1 tmp2 arm_ret_rsc_imm = arm_addr (add32 (add32 (not32 tmp1) tmp2) (carry c))
operate_imm c tmp1 tmp2 arm_cdata_sbc_imm = arm_addr (add32 (add32 tmp1 (not32 tmp2)) (carry c))
operate_imm c tmp1 tmp2 arm_ret_sbc_imm = arm_addr (add32 (add32 tmp1 (not32 tmp2)) (carry c))
operate_imm c tmp1 tmp2 arm_cdata_sub_imm = arm_addr (sub32 tmp1 tmp2)
operate_imm c tmp1 tmp2 arm_cdata_sub_imm_sp = arm_addr (sub32 tmp1 tmp2)
operate_imm c tmp1 tmp2 arm_ret_sub_imm = arm_addr (sub32 tmp1 tmp2)
operate_imm c tmp1 tmp2 _ = undef_addr

-- the `switch` over the returns from an exception
unfoldable pub return_imm : Context → ℕ → NextAddr → Extra → NextAddr
unfolding returned
return_imm c instr retval arm_ret_adc_imm = returned c instr retval
return_imm c instr retval arm_ret_add_imm = returned c instr retval
return_imm c instr retval arm_ret_bic_imm = returned c instr retval
return_imm c instr retval arm_ret_eor_imm = returned c instr retval
return_imm c instr retval arm_ret_mov_imm = returned c instr retval
return_imm c instr retval arm_ret_mvn_imm = returned c instr retval
return_imm c instr retval arm_ret_rsb_imm = returned c instr retval
return_imm c instr retval arm_ret_rsc_imm = returned c instr retval
return_imm c instr retval arm_ret_sbc_imm = returned c instr retval
return_imm c instr retval arm_ret_sub_imm = returned c instr retval
return_imm c instr retval _ = retval

-- the case of the PC, where a rotation loses the value of Rn
unfoldable pub to_pc_imm : Context → ℕ → Extra → NextAddr
unfolding bitrng operand rotated mask_from operate_imm return_imm
to_pc_imm c instr extra =
    let imm = bitrng instr 7 0 in
    let n = bit_and (bitrng instr 11 8 * 2) 0x1f in
    let tmp1 = if n == 0 then operand c (bitrng instr 19 16) else mask_from n in
    let tmp2 = if n == 0 then imm else rotated imm n in
    return_imm c instr (operate_imm c tmp1 tmp2 extra) extra

-- `arm_core_data_std_i`
unfoldable pub arm_core_data_std_i : Context → ℕ → Extra → NextAddr
unfolding compares_imm to_pc_imm bitrng
arm_core_data_std_i c instr extra =
    if compares_imm extra
    then addr_lin
    else if bitrng instr 15 12 == 15
    then to_pc_imm c instr extra
    else addr_lin
