-- ===== src/Decode/DataReg.antt =====
-- `arm_core_data_std_r` (ARM_decode_table.c): data processing with a shifted register.
pub mod Alu
use rpi_stub.Common.{ℕ, ◌*◌, Bool, true, false, ◌==◌, if◌then◌else◌, bit_and, bit_xor}
use rpi_stub.Instr.Next.{NextAddr, undef_addr, unpred_addr, arm_addr}
use rpi_stub.Instr.Word.{bitrng}
use rpi_stub.Decode.Extra.{
  Extra, arm_cdata_cmn_r, arm_cdata_cmp_r, arm_cdata_teq_r, arm_cdata_tst_r, arm_cdata_adc_r,
  arm_ret_adc_r, arm_cdata_add_r, arm_cdata_add_r_sp, arm_ret_add_r, arm_cdata_and_r, arm_ret_and_r,
  arm_cdata_bic_r, arm_ret_bic_r, arm_cdata_eor_r, arm_ret_eor_r, arm_cdata_mvn_r, arm_ret_mvn_r,
  arm_cdata_orr_r, arm_ret_orr_r, arm_cdata_rsb_r, arm_ret_rsb_r, arm_cdata_rsc_r, arm_ret_rsc_r,
  arm_cdata_sbc_r, arm_ret_sbc_r, arm_cdata_sub_r, arm_cdata_sub_r_sp, arm_ret_sub_r,
}
use rpi_stub.Decode.Context.{Context, stored, operand, carry, reg_r15, addr_lin}
use rpi_stub.Decode.Int32.{add32, sub32, not32, shl32}
use rpi_stub.Decode.Shift.{shift_imm, shift_reg, rotated, kept, mask_from}
use rpi_stub.Decode.Return.{returned}

-- the instructions that have no Rd
unfoldable pub compares_r : Extra → Bool
compares_r arm_cdata_cmn_r = true
compares_r arm_cdata_cmp_r = true
compares_r arm_cdata_teq_r = true
compares_r arm_cdata_tst_r = true
compares_r _ = false

-- the `switch` over the operation
unfoldable pub operate_r : Context → ℕ → ℕ → Extra → NextAddr
unfolding add32 sub32 not32 carry
operate_r c tmp1 tmp2 arm_cdata_adc_r = arm_addr (add32 (add32 tmp1 tmp2) (carry c))
operate_r c tmp1 tmp2 arm_ret_adc_r = arm_addr (add32 (add32 tmp1 tmp2) (carry c))
operate_r c tmp1 tmp2 arm_cdata_add_r = arm_addr (add32 tmp1 tmp2)
operate_r c tmp1 tmp2 arm_cdata_add_r_sp = arm_addr (add32 tmp1 tmp2)
operate_r c tmp1 tmp2 arm_ret_add_r = arm_addr (add32 tmp1 tmp2)
operate_r c tmp1 tmp2 arm_cdata_and_r = arm_addr (bit_and tmp1 tmp2)
operate_r c tmp1 tmp2 arm_ret_and_r = arm_addr (bit_and tmp1 tmp2)
operate_r c tmp1 tmp2 arm_cdata_bic_r = arm_addr (bit_and tmp1 (not32 tmp2))
operate_r c tmp1 tmp2 arm_ret_bic_r = arm_addr (bit_and tmp1 (not32 tmp2))
operate_r c tmp1 tmp2 arm_cdata_eor_r = arm_addr (bit_xor tmp1 tmp2)
operate_r c tmp1 tmp2 arm_ret_eor_r = arm_addr (bit_xor tmp1 tmp2)
operate_r c tmp1 tmp2 arm_cdata_mvn_r = arm_addr (not32 tmp2)
operate_r c tmp1 tmp2 arm_ret_mvn_r = arm_addr (not32 tmp2)
operate_r c tmp1 tmp2 arm_cdata_orr_r = arm_addr (bit_and tmp1 tmp2)
operate_r c tmp1 tmp2 arm_ret_orr_r = arm_addr (bit_and tmp1 tmp2)
operate_r c tmp1 tmp2 arm_cdata_rsb_r = arm_addr (sub32 tmp2 tmp1)
operate_r c tmp1 tmp2 arm_ret_rsb_r = arm_addr (sub32 tmp2 tmp1)
operate_r c tmp1 tmp2 arm_cdata_rsc_r = arm_addr (add32 (add32 (not32 tmp1) tmp2) (carry c))
operate_r c tmp1 tmp2 arm_ret_rsc_r = arm_addr (add32 (add32 (not32 tmp1) tmp2) (carry c))
operate_r c tmp1 tmp2 arm_cdata_sbc_r = arm_addr (add32 (add32 tmp1 (not32 tmp2)) (carry c))
operate_r c tmp1 tmp2 arm_ret_sbc_r = arm_addr (add32 (add32 tmp1 (not32 tmp2)) (carry c))
operate_r c tmp1 tmp2 arm_cdata_sub_r = arm_addr (sub32 tmp1 tmp2)
operate_r c tmp1 tmp2 arm_cdata_sub_r_sp = arm_addr (sub32 tmp1 tmp2)
operate_r c tmp1 tmp2 arm_ret_sub_r = arm_addr (sub32 tmp1 tmp2)
operate_r c tmp1 tmp2 _ = undef_addr

-- the `switch` over the returns from an exception
unfoldable pub return_r : Context → ℕ → NextAddr → Extra → NextAddr
unfolding returned
return_r c instr retval arm_ret_adc_r = returned c instr retval
return_r c instr retval arm_ret_add_r = returned c instr retval
return_r c instr retval arm_ret_and_r = returned c instr retval
return_r c instr retval arm_ret_bic_r = returned c instr retval
return_r c instr retval arm_ret_eor_r = returned c instr retval
return_r c instr retval arm_ret_mvn_r = returned c instr retval
return_r c instr retval arm_ret_orr_r = returned c instr retval
return_r c instr retval arm_ret_rsb_r = returned c instr retval
return_r c instr retval arm_ret_rsc_r = returned c instr retval
return_r c instr retval arm_ret_sbc_r = returned c instr retval
return_r c instr retval arm_ret_sub_r = returned c instr retval
return_r c instr retval _ = retval

-- the case of the PC, where ROR loses the value of Rn
unfoldable pub to_pc_r : Context → ℕ → Extra → NextAddr
unfolding bitrng operand carry shift_imm kept operate_r return_r
to_pc_r c instr extra =
    let kind = bitrng instr 6 5 in
    let n = bitrng instr 11 7 in
    let tmp1 = kept (operand c (bitrng instr 19 16)) kind n in
    let tmp2 = shift_imm (carry c) (operand c (bitrng instr 3 0)) kind n in
    return_r c instr (operate_r c tmp1 tmp2 extra) extra

-- `arm_core_data_std_r`
unfoldable pub arm_core_data_std_r : Context → ℕ → Extra → NextAddr
unfolding compares_r to_pc_r bitrng
arm_core_data_std_r c instr extra =
    if compares_r extra
    then addr_lin
    else if bitrng instr 15 12 == 15
    then to_pc_r c instr extra
    else addr_lin
