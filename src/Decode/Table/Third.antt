-- ===== src/Decode/Table/Third.antt =====
-- The rows 250 to 374 of the table (ARM_decode_table_data.h).
use rpi_stub.Common.{List, [], ◌∷◌}
use rpi_stub.Decode.Extra.{
  arm_cdata_add_imm_sp, arm_cdata_add_r_sp, arm_cdata_adr_lbla, arm_cdata_adr_lblb,
  arm_cdata_asr_imm, arm_cdata_asr_r, arm_cdata_lsl_r, arm_cdata_lsr_imm, arm_cdata_lsr_r,
  arm_cdata_ror_r, arm_cdata_sub_imm_sp, arm_cdata_sub_r_sp, arm_cldstm_pop, arm_cldstm_push,
  arm_cldstx_ldrht_imm, arm_cldstx_ldrht_r, arm_cldstx_ldrsbt_imm, arm_cldstx_ldrsbt_r,
  arm_cldstx_ldrsht_imm, arm_cldstx_ldrsht_r, arm_cldstx_strht_imm, arm_cldstx_strht_r,
  arm_cmac_mla, arm_cmac_mul, arm_cmac_smla, arm_cmac_smlad, arm_cmac_smlal, arm_cmac_smlal16,
  arm_cmac_smlald, arm_cmac_smlaw, arm_cmac_smlsd, arm_cmac_smlsld, arm_cmac_smmla, arm_cmac_smmls,
  arm_cmac_smul, arm_cmac_smull, arm_cmac_smulw, arm_cmac_umlal, arm_cmac_umull, arm_cmisc_bfi,
  arm_cmisc_sbfx, arm_cmisc_ubfx, arm_cop_mcr2, arm_cop_mrc2, arm_cstat_mrs_b, arm_cstat_msr_b,
  arm_exc_bkpt, arm_exc_eret, arm_exc_hvc, arm_exc_smc, arm_fp_vdiv, arm_fp_vfnm, arm_misc_pld_r,
  arm_misc_pli_lbl, arm_misc_pli_r, arm_misc_swp, arm_mux_mrs_r_pr, arm_mux_msr_r_pr,
  arm_mux_vld_type, arm_mux_vst_type, arm_par_uhsub8, arm_par_uqadd16, arm_par_uqadd8,
  arm_par_uqasx, arm_par_uqsax, arm_par_uqsub16, arm_par_uqsub8, arm_par_usax, arm_par_usub16,
  arm_par_usub8, arm_ret_adc_imm, arm_ret_adc_r, arm_ret_add_imm, arm_ret_add_r, arm_ret_and_r,
  arm_ret_bic_imm, arm_ret_bic_r, arm_ret_eor_imm, arm_ret_eor_r, arm_ret_mov_imm, arm_ret_mvn_imm,
  arm_ret_mvn_r, arm_ret_orr_r, arm_ret_rsb_imm, arm_ret_rsb_r, arm_ret_rsc_imm, arm_ret_rsc_r,
  arm_ret_sbc_imm, arm_ret_sbc_r, arm_ret_sub_imm, arm_ret_sub_r, arm_sat_qadd, arm_sat_qdadd,
  arm_sat_qdsub, arm_sat_qsub, arm_sat_ssat16, arm_sat_usat16, arm_sync_ldrex, arm_sync_ldrexb,
  arm_sync_ldrexd, arm_sync_ldrexh, arm_sync_strex, arm_sync_strexb, arm_sync_strexd,
  arm_sync_strexh, arm_vbits_vmov_6432_i, arm_vfpxfer_vdup, arm_vfpxfer_vmov_dx, arm_vfpxfer_vmov_s,
  arm_vmac_vfm_f64, arm_vmac_vmla_f64, arm_vmac_vmls_f64, arm_vmac_vmul_f64, arm_vmac_vnmlas_f64,
  arm_vmac_vnmul_f64, arm_vmisc_vext_imm, arm_vpar_vadd_f64, arm_vpar_vsub_f64,
  arm_vsh_vqshl_dt_imm, coproc, core_data_bit, core_data_mac, core_data_macd, core_data_misc,
  core_data_par, core_data_sat, core_data_std_i, core_data_std_r, core_exc, core_ldstm,
  core_ldstrex, core_ldstrh, core_ldstrsb, core_ldstsh, core_misc, core_status, fp, mux, v_bits,
  v_mac, v_misc, v_par, v_shift, vfp_xfer_reg,
}
use rpi_stub.Decode.Row.{DecTblEntry, entry}

unfoldable pub rows_from_250 : List DecTblEntry
rows_from_250 =
    entry 0x067000F0 0x0FF000F0 arm_par_uhsub8 core_data_par
    ∷ entry 0x06600010 0x0FF000F0 arm_par_uqadd16 core_data_par
    ∷ entry 0x06600090 0x0FF000F0 arm_par_uqadd8 core_data_par
    ∷ entry 0x06600030 0x0FF000F0 arm_par_uqasx core_data_par
    ∷ entry 0x06600050 0x0FF000F0 arm_par_uqsax core_data_par
    ∷ entry 0x06600070 0x0FF000F0 arm_par_uqsub16 core_data_par
    ∷ entry 0x066000F0 0x0FF000F0 arm_par_uqsub8 core_data_par
    ∷ entry 0x06500050 0x0FF000F0 arm_par_usax core_data_par
    ∷ entry 0x06500070 0x0FF000F0 arm_par_usub16 core_data_par
    ∷ entry 0x065000F0 0x0FF000F0 arm_par_usub8 core_data_par
    ∷ entry 0x01000050 0x0FF000F0 arm_sat_qadd core_data_sat
    ∷ entry 0x01400050 0x0FF000F0 arm_sat_qdadd core_data_sat
    ∷ entry 0x01600050 0x0FF000F0 arm_sat_qdsub core_data_sat
    ∷ entry 0x01200050 0x0FF000F0 arm_sat_qsub core_data_sat
    ∷ entry 0x06A00030 0x0FF000F0 arm_sat_ssat16 core_data_sat
    ∷ entry 0x06E00030 0x0FF000F0 arm_sat_usat16 core_data_sat
    ∷ entry 0x028F0000 0x0FFF0000 arm_cdata_adr_lbla core_data_std_i
    ∷ entry 0x024F0000 0x0FFF0000 arm_cdata_adr_lblb core_data_std_i
    ∷ entry 0x00A0F000 0x0FE0F010 arm_ret_adc_r core_data_std_r
    ∷ entry 0x0080F000 0x0FE0F010 arm_ret_add_r core_data_std_r
    ∷ entry 0x0000F000 0x0FE0F010 arm_ret_and_r core_data_std_r
    ∷ entry 0x01C0F000 0x0FE0F010 arm_ret_bic_r core_data_std_r
    ∷ entry 0x0020F000 0x0FE0F010 arm_ret_eor_r core_data_std_r
    ∷ entry 0x01E0F000 0x0FE0F010 arm_ret_mvn_r core_data_std_r
    ∷ entry 0x0180F000 0x0FE0F010 arm_ret_orr_r core_data_std_r
    ∷ entry 0x0060F000 0x0FE0F010 arm_ret_rsb_r core_data_std_r
    ∷ entry 0x00E0F000 0x0FE0F010 arm_ret_rsc_r core_data_std_r
    ∷ entry 0x00C0F000 0x0FE0F010 arm_ret_sbc_r core_data_std_r
    ∷ entry 0x0040F000 0x0FE0F010 arm_ret_sub_r core_data_std_r
    ∷ entry 0x008D0000 0x0FEF0010 arm_cdata_add_r_sp core_data_std_r
    ∷ entry 0x004D0000 0x0FEF0010 arm_cdata_sub_r_sp core_data_std_r
    ∷ entry 0x01600060 0x0FF000F0 arm_exc_eret core_exc
    ∷ entry 0x01200070 0x0FF000F0 arm_exc_bkpt core_exc
    ∷ entry 0x01400070 0x0FF000F0 arm_exc_hvc core_exc
    ∷ entry 0x01600070 0x0FF000F0 arm_exc_smc core_exc
    ∷ entry 0x08BD0000 0x0FFF0000 arm_cldstm_pop core_ldstm
    ∷ entry 0x092D0000 0x0FFF0000 arm_cldstm_push core_ldstm
    ∷ entry 0x01900090 0x0FF000F0 arm_sync_ldrex core_ldstrex
    ∷ entry 0x01D00090 0x0FF000F0 arm_sync_ldrexb core_ldstrex
    ∷ entry 0x01B00090 0x0FF000F0 arm_sync_ldrexd core_ldstrex
    ∷ entry 0x01F00090 0x0FF000F0 arm_sync_ldrexh core_ldstrex
    ∷ entry 0x01800090 0x0FF000F0 arm_sync_strex core_ldstrex
    ∷ entry 0x01C00090 0x0FF000F0 arm_sync_strexb core_ldstrex
    ∷ entry 0x01A00090 0x0FF000F0 arm_sync_strexd core_ldstrex
    ∷ entry 0x01E00090 0x0FF000F0 arm_sync_strexh core_ldstrex
    ∷ entry 0xF6500000 0xFF700010 arm_misc_pli_r core_misc
    ∷ entry 0x01000200 0x0FB002F0 arm_cstat_mrs_b core_status
    ∷ entry 0x01200200 0x0FB002F0 arm_cstat_msr_b core_status
    ∷ entry 0x0E800A00 0x0FB00E50 arm_fp_vdiv fp
    ∷ entry 0x01000000 0x0FB002F0 arm_mux_mrs_r_pr mux
    ∷ entry 0x01200000 0x0FB002F0 arm_mux_msr_r_pr mux
    ∷ entry 0x0EB00A00 0x0FB00E50 arm_vbits_vmov_6432_i v_bits
    ∷ entry 0x0E000A00 0x0FB00E50 arm_vmac_vmla_f64 v_mac
    ∷ entry 0x0E000A40 0x0FB00E50 arm_vmac_vmls_f64 v_mac
    ∷ entry 0x0E200A00 0x0FB00E50 arm_vmac_vmul_f64 v_mac
    ∷ entry 0x0E200A40 0x0FB00E50 arm_vmac_vnmul_f64 v_mac
    ∷ entry 0xF2B00000 0xFFB00010 arm_vmisc_vext_imm v_misc
    ∷ entry 0x0E300A00 0x0FB00E50 arm_vpar_vadd_f64 v_par
    ∷ entry 0x0E300A40 0x0FB00E50 arm_vpar_vsub_f64 v_par
    ∷ entry 0xF2800610 0xFE800E10 arm_vsh_vqshl_dt_imm v_shift
    ∷ entry 0x0E800B10 0x0F900F50 arm_vfpxfer_vdup vfp_xfer_reg
    ∷ entry 0x0E000A10 0x0FE00F10 arm_vfpxfer_vmov_s vfp_xfer_reg
    ∷ entry 0x01A00050 0x0FE000F0 arm_cdata_asr_r core_data_bit
    ∷ entry 0x01A00010 0x0FE000F0 arm_cdata_lsl_r core_data_bit
    ∷ entry 0x01A00030 0x0FE000F0 arm_cdata_lsr_r core_data_bit
    ∷ entry 0x01A00070 0x0FE000F0 arm_cdata_ror_r core_data_bit
    ∷ entry 0x012000A0 0x0FF000B0 arm_cmac_smulw core_data_mac
    ∷ entry 0x00000090 0x0FE000F0 arm_cmac_mul core_data_mac
    ∷ entry 0x01200080 0x0FF000B0 arm_cmac_smlaw core_data_mac
    ∷ entry 0x00200090 0x0FE000F0 arm_cmac_mla core_data_mac
    ∷ entry 0x07000010 0x0FF000D0 arm_cmac_smlad core_data_mac
    ∷ entry 0x07000050 0x0FF000D0 arm_cmac_smlsd core_data_mac
    ∷ entry 0x07500010 0x0FF000D0 arm_cmac_smmla core_data_mac
    ∷ entry 0x075000D0 0x0FF000D0 arm_cmac_smmls core_data_mac
    ∷ entry 0x00E00090 0x0FE000F0 arm_cmac_smlal core_data_macd
    ∷ entry 0x00C00090 0x0FE000F0 arm_cmac_smull core_data_macd
    ∷ entry 0x00A00090 0x0FE000F0 arm_cmac_umlal core_data_macd
    ∷ entry 0x00800090 0x0FE000F0 arm_cmac_umull core_data_macd
    ∷ entry 0x07400010 0x0FF000D0 arm_cmac_smlald core_data_macd
    ∷ entry 0x07400050 0x0FF000D0 arm_cmac_smlsld core_data_macd
    ∷ entry 0x028D0000 0x0FEF0000 arm_cdata_add_imm_sp core_data_std_i
    ∷ entry 0x024D0000 0x0FEF0000 arm_cdata_sub_imm_sp core_data_std_i
    ∷ entry 0x02A0F000 0x0FE0F000 arm_ret_adc_imm core_data_std_i
    ∷ entry 0x0280F000 0x0FE0F000 arm_ret_add_imm core_data_std_i
    ∷ entry 0x03C0F000 0x0FE0F000 arm_ret_bic_imm core_data_std_i
    ∷ entry 0x0220F000 0x0FE0F000 arm_ret_eor_imm core_data_std_i
    ∷ entry 0x03A0F000 0x0FE0F000 arm_ret_mov_imm core_data_std_i
    ∷ entry 0x03E0F000 0x0FE0F000 arm_ret_mvn_imm core_data_std_i
    ∷ entry 0x0260F000 0x0FE0F000 arm_ret_rsb_imm core_data_std_i
    ∷ entry 0x02E0F000 0x0FE0F000 arm_ret_rsc_imm core_data_std_i
    ∷ entry 0x02C0F000 0x0FE0F000 arm_ret_sbc_imm core_data_std_i
    ∷ entry 0x0240F000 0x0FE0F000 arm_ret_sub_imm core_data_std_i
    ∷ entry 0x007000B0 0x0F7000F0 arm_cldstx_ldrht_imm core_ldstrh
    ∷ entry 0x003000B0 0x0F7000F0 arm_cldstx_ldrht_r core_ldstrh
    ∷ entry 0x006000B0 0x0F7000F0 arm_cldstx_strht_imm core_ldstrh
    ∷ entry 0x002000B0 0x0F7000F0 arm_cldstx_strht_r core_ldstrh
    ∷ entry 0x007000D0 0x0F7000F0 arm_cldstx_ldrsbt_imm core_ldstrsb
    ∷ entry 0x003000D0 0x0F7000F0 arm_cldstx_ldrsbt_r core_ldstrsb
    ∷ entry 0x007000F0 0x0F7000F0 arm_cldstx_ldrsht_imm core_ldstsh
    ∷ entry 0x003000F0 0x0F7000F0 arm_cldstx_ldrsht_r core_ldstsh
    ∷ entry 0x01000090 0x0FB000F0 arm_misc_swp core_misc
    ∷ entry 0xF4500000 0xFF700000 arm_misc_pli_lbl core_misc
    ∷ entry 0xF7100000 0xFF300010 arm_misc_pld_r core_misc
    ∷ entry 0x0E900A00 0x0FB00E10 arm_fp_vfnm fp
    ∷ entry 0xF4200000 0xFFB00000 arm_mux_vld_type mux
    ∷ entry 0xF4200000 0xFFB00000 arm_mux_vld_type mux
    ∷ entry 0xF4200000 0xFFB00000 arm_mux_vld_type mux
    ∷ entry 0xF4200000 0xFFB00000 arm_mux_vld_type mux
    ∷ entry 0xF4000000 0xFFB00000 arm_mux_vst_type mux
    ∷ entry 0xF4000000 0xFFB00000 arm_mux_vst_type mux
    ∷ entry 0xF4000000 0xFFB00000 arm_mux_vst_type mux
    ∷ entry 0xF4000000 0xFFB00000 arm_mux_vst_type mux
    ∷ entry 0x0EA00A00 0x0FB00E10 arm_vmac_vfm_f64 v_mac
    ∷ entry 0x0E100A00 0x0FB00E10 arm_vmac_vnmlas_f64 v_mac
    ∷ entry 0x0E000B10 0x0F900F10 arm_vfpxfer_vmov_dx vfp_xfer_reg
    ∷ entry 0xFE000010 0xFF100010 arm_cop_mcr2 coproc
    ∷ entry 0xFE100010 0xFF100010 arm_cop_mrc2 coproc
    ∷ entry 0x01A00040 0x0FE00070 arm_cdata_asr_imm core_data_bit
    ∷ entry 0x01A00020 0x0FE00070 arm_cdata_lsr_imm core_data_bit
    ∷ entry 0x01000080 0x0FF00090 arm_cmac_smla core_data_mac
    ∷ entry 0x01600080 0x0FF00090 arm_cmac_smul core_data_mac
    ∷ entry 0x01400080 0x0FF00090 arm_cmac_smlal16 core_data_macd
    ∷ entry 0x07C00010 0x0FE00070 arm_cmisc_bfi core_data_misc
    ∷ entry 0x07A00050 0x0FE00070 arm_cmisc_sbfx core_data_misc
    ∷ entry 0x07E00050 0x0FE00070 arm_cmisc_ubfx core_data_misc
    ∷ []
