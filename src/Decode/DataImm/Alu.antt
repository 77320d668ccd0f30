-- ===== src/Decode/DataImm/Alu.antt =====
-- `arm_core_data_std_i` (ARM_decode_table.c) against the operations of the architecture, by the
-- opcodes of the table (ARM_decode_table_data.h).
use rpi_stub.Common.{ℕ, Option, none, some}
use rpi_stub.Decode.Extra.{
  Extra, arm_ret_adc_imm, arm_ret_add_imm, arm_ret_bic_imm, arm_ret_eor_imm, arm_ret_mov_imm,
  arm_ret_mvn_imm, arm_ret_rsb_imm, arm_ret_rsc_imm, arm_ret_sbc_imm, arm_ret_sub_imm,
}
use rpi_stub.Decode.Context.{Context}

-- the opcode of a row with the PC as Rd, but for ORR
unfoldable pub opcode_imm : Extra → Option ℕ
opcode_imm arm_ret_adc_imm = some 5
opcode_imm arm_ret_add_imm = some 4
opcode_imm arm_ret_bic_imm = some 14
opcode_imm arm_ret_eor_imm = some 1
opcode_imm arm_ret_mov_imm = some 13
opcode_imm arm_ret_mvn_imm = some 15
opcode_imm arm_ret_rsb_imm = some 3
opcode_imm arm_ret_rsc_imm = some 7
opcode_imm arm_ret_sbc_imm = some 6
opcode_imm arm_ret_sub_imm = some 2
opcode_imm _ = none
