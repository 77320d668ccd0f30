-- ===== src/Decode/DataShift.antt =====
-- `arm_core_data_std_sh` (ARM_decode_table.c): data processing with a register shifted by a register.
use rpi_stub.Common.{ℕ, Bool, true, false, ◌==◌, if◌then◌else◌, bit_and, bit_xor}
use rpi_stub.Instr.Next.{NextAddr, undef_addr, unpred_addr, arm_addr}
use rpi_stub.Instr.Word.{bitrng}
use rpi_stub.Decode.Extra.{
  Extra, arm_cdata_cmn_rshr, arm_cdata_cmp_rshr, arm_cdata_teq_rshr, arm_cdata_tst_rshr,
  arm_cdata_adc_rshr, arm_cdata_add_rshr, arm_cdata_and_rshr, arm_cdata_bic_rshr,
  arm_cdata_eor_rshr, arm_cdata_mvn_rshr, arm_cdata_orr_rshr, arm_cdata_rsb_rshr,
  arm_cdata_rsc_rshr, arm_cdata_sbc_rshr, arm_cdata_sub_rshr,
}
use rpi_stub.Decode.Context.{Context, operand, carry, addr_lin}
use rpi_stub.Decode.Int32.{add32, sub32, not32}
use rpi_stub.Decode.Shift.{shift_reg, kept}

-- the instructions that have no Rd
unfoldable pub compares_rshr : Extra → Bool
compares_rshr arm_cdata_cmn_rshr = true
compares_rshr arm_cdata_cmp_rshr = true
compares_rshr arm_cdata_teq_rshr = true
compares_rshr arm_cdata_tst_rshr = true
compares_rshr _ = false

-- the `switch` over the operation
unfoldable pub operate_rshr : Context → ℕ → ℕ → Extra → NextAddr
unfolding add32 sub32 not32 carry
operate_rshr c tmp1 tmp2 arm_cdata_adc_rshr = arm_addr (add32 (add32 tmp1 tmp2) (carry c))
operate_rshr c tmp1 tmp2 arm_cdata_add_rshr = arm_addr (add32 tmp1 tmp2)
operate_rshr c tmp1 tmp2 arm_cdata_and_rshr = arm_addr (bit_and tmp1 tmp2)
operate_rshr c tmp1 tmp2 arm_cdata_bic_rshr = arm_addr (bit_and tmp1 (not32 tmp2))
operate_rshr c tmp1 tmp2 arm_cdata_eor_rshr = arm_addr (bit_xor tmp1 tmp2)
operate_rshr c tmp1 tmp2 arm_cdata_mvn_rshr = arm_addr (not32 tmp2)
operate_rshr c tmp1 tmp2 arm_cdata_orr_rshr = arm_addr (bit_and tmp1 tmp2)
operate_rshr c tmp1 tmp2 arm_cdata_rsb_rshr = arm_addr (sub32 tmp2 tmp1)
operate_rshr c tmp1 tmp2 arm_cdata_rsc_rshr = arm_addr (add32 (add32 (not32 tmp1) tmp2) (carry c))
operate_rshr c tmp1 tmp2 arm_cdata_sbc_rshr = arm_addr (add32 (add32 tmp1 (not32 tmp2)) (carry c))
operate_rshr c tmp1 tmp2 arm_cdata_sub_rshr = arm_addr (sub32 tmp1 tmp2)
operate_rshr c tmp1 tmp2 _ = undef_addr

-- the case of the PC, where ROR loses the value of Rn
unfoldable pub to_pc_rshr : Context → ℕ → Extra → NextAddr
unfolding bitrng operand shift_reg kept operate_rshr
to_pc_rshr c instr extra =
    let kind = bitrng instr 6 5 in
    let n = bit_and (operand c (bitrng instr 11 8)) 0x1f in
    let rm = operand c (bitrng instr 3 0) in
    let tmp1 = kept (operand c (bitrng instr 19 16)) kind n in
    let tmp2 = if n == 0 then rm else shift_reg rm kind n in
    unpred_addr (operate_rshr c tmp1 tmp2 extra)

-- `arm_core_data_std_sh`
unfoldable pub arm_core_data_std_sh : Context → ℕ → Extra → NextAddr
unfolding compares_rshr to_pc_rshr bitrng
arm_core_data_std_sh c instr extra =
    if compares_rshr extra
    then addr_lin
    else if bitrng instr 15 12 == 15
    then to_pc_rshr c instr extra
    else addr_lin
