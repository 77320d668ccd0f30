-- ===== src/Decode/Table/Fourth.antt =====
-- The rows 375 to 497 of the table (ARM_decode_table_data.h).
use rpi_stub.Common.{List, [], ◌∷◌}
use rpi_stub.Decode.Extra.{
  arm_bra_b_lbl, arm_bra_bl_lbl, arm_bra_blx_lbl, arm_cdata_adc_imm, arm_cdata_adc_r,
  arm_cdata_adc_rshr, arm_cdata_add_imm, arm_cdata_add_r, arm_cdata_add_rshr, arm_cdata_and_imm,
  arm_cdata_and_r, arm_cdata_and_rshr, arm_cdata_bic_imm, arm_cdata_bic_r, arm_cdata_bic_rshr,
  arm_cdata_cmn_imm, arm_cdata_cmn_r, arm_cdata_cmn_rshr, arm_cdata_cmp_imm, arm_cdata_cmp_r,
  arm_cdata_cmp_rshr, arm_cdata_eor_imm, arm_cdata_eor_r, arm_cdata_eor_rshr, arm_cdata_mov_imm,
  arm_cdata_mvn_imm, arm_cdata_mvn_r, arm_cdata_mvn_rshr, arm_cdata_orr_imm, arm_cdata_orr_r,
  arm_cdata_orr_rshr, arm_cdata_rsb_imm, arm_cdata_rsb_r, arm_cdata_rsb_rshr, arm_cdata_rsc_imm,
  arm_cdata_rsc_r, arm_cdata_rsc_rshr, arm_cdata_sbc_imm, arm_cdata_sbc_r, arm_cdata_sbc_rshr,
  arm_cdata_sub_imm, arm_cdata_sub_r, arm_cdata_sub_rshr, arm_cdata_teq_imm, arm_cdata_teq_r,
  arm_cdata_teq_rshr, arm_cdata_tst_imm, arm_cdata_tst_r, arm_cdata_tst_rshr, arm_cldst_ldr_imm,
  arm_cldst_ldr_lbl, arm_cldst_ldr_r, arm_cldst_ldrb_imm, arm_cldst_ldrb_lbl, arm_cldst_ldrb_r,
  arm_cldst_ldrbt_imm, arm_cldst_ldrbt_r, arm_cldst_ldrt_imm, arm_cldst_ldrt_r, arm_cldst_str_imm,
  arm_cldst_str_r, arm_cldst_strb_imm, arm_cldst_strb_r, arm_cldst_strbt_imm, arm_cldst_strbt_r,
  arm_cldst_strt_imm, arm_cldst_strt_r, arm_cldstm_dlmda, arm_cldstm_ldm, arm_cldstm_ldm_pc,
  arm_cldstm_ldm_usr, arm_cldstm_ldmdb, arm_cldstm_ldmib, arm_cldstm_stm, arm_cldstm_stm_usr,
  arm_cldstm_stmda, arm_cldstm_stmdb, arm_cldstm_stmib, arm_cldstx_ldrd_imm, arm_cldstx_ldrd_r,
  arm_cldstx_ldrh_imm, arm_cldstx_ldrh_r, arm_cldstx_ldrsb_imm, arm_cldstx_ldrsb_r,
  arm_cldstx_ldrsh_imm, arm_cldstx_ldrsh_r, arm_cldstx_strd_imm, arm_cldstx_strd_r,
  arm_cldstx_strh_imm, arm_cldstx_strh_r, arm_cmisc_movt, arm_cmisc_movw, arm_cop_cdp, arm_cop_cdp2,
  arm_cop_ldc, arm_cop_ldc2, arm_cop_ldc_pc, arm_cop_mcr, arm_cop_mcrr, arm_cop_mrc, arm_cop_mrrc,
  arm_cop_stc, arm_cop_stc2, arm_exc_rfe, arm_exc_srs, arm_exc_svc, arm_misc_pld_imm,
  arm_mux_lsl_i_mov, arm_mux_msr_i_pr_hints, arm_mux_ror_i_rrx, arm_pack_pkh, arm_sat_ssat,
  arm_sat_usat, arm_vfpxfer_vmov_dt_dx, arm_vldstx_vldm32, arm_vldstx_vldm64, arm_vldstx_vldr_d_imm,
  arm_vldstx_vldr_s_imm, arm_vldstx_vstm32, arm_vldstx_vstm64, arm_vldstx_vstr_d_imm,
  arm_vldstx_vstr_s_imm, branch, coproc, core_data_misc, core_data_pack, core_data_sat,
  core_data_std_i, core_data_std_r, core_data_std_sh, core_exc, core_ldst, core_ldstm, core_ldstrd,
  core_ldstrh, core_ldstrsb, core_ldstsh, core_misc, mux, vfp_ldst_ext, vfp_xfer_reg,
}
use rpi_stub.Decode.Row.{DecTblEntry, entry}

unfoldable pub rows_from_375 : List DecTblEntry
rows_from_375 =
    entry 0x06800010 0x0FF00030 arm_pack_pkh core_data_pack
    ∷ entry 0x01700010 0x0FF00090 arm_cdata_cmn_rshr core_data_std_sh
    ∷ entry 0x01500010 0x0FF00090 arm_cdata_cmp_rshr core_data_std_sh
    ∷ entry 0x01300010 0x0FF00090 arm_cdata_teq_rshr core_data_std_sh
    ∷ entry 0x01100010 0x0FF00090 arm_cdata_tst_rshr core_data_std_sh
    ∷ entry 0xF5100000 0xFF300000 arm_misc_pld_imm core_misc
    ∷ entry 0x01A00000 0x0FE00070 arm_mux_lsl_i_mov mux
    ∷ entry 0x01A00060 0x0FE00070 arm_mux_ror_i_rrx mux
    ∷ entry 0x03200000 0x0FF30000 arm_mux_msr_i_pr_hints mux
    ∷ entry 0x0D100B00 0x0F300F00 arm_vldstx_vldr_d_imm vfp_ldst_ext
    ∷ entry 0x0D100A00 0x0F300F00 arm_vldstx_vldr_s_imm vfp_ldst_ext
    ∷ entry 0x0D000B00 0x0F300F00 arm_vldstx_vstr_d_imm vfp_ldst_ext
    ∷ entry 0x0D000A00 0x0F300F00 arm_vldstx_vstr_s_imm vfp_ldst_ext
    ∷ entry 0x0E100B10 0x0F100F10 arm_vfpxfer_vmov_dt_dx vfp_xfer_reg
    ∷ entry 0xFE000000 0xFF000010 arm_cop_cdp2 coproc
    ∷ entry 0x06A00010 0x0FE00030 arm_sat_ssat core_data_sat
    ∷ entry 0x06E00010 0x0FE00030 arm_sat_usat core_data_sat
    ∷ entry 0x01700000 0x0FF00010 arm_cdata_cmn_r core_data_std_r
    ∷ entry 0x01500000 0x0FF00010 arm_cdata_cmp_r core_data_std_r
    ∷ entry 0x01300000 0x0FF00010 arm_cdata_teq_r core_data_std_r
    ∷ entry 0x01100000 0x0FF00010 arm_cdata_tst_r core_data_std_r
    ∷ entry 0x00A00010 0x0FE00090 arm_cdata_adc_rshr core_data_std_sh
    ∷ entry 0x00800010 0x0FE00090 arm_cdata_add_rshr core_data_std_sh
    ∷ entry 0x00000010 0x0FE00090 arm_cdata_and_rshr core_data_std_sh
    ∷ entry 0x01C00010 0x0FE00090 arm_cdata_bic_rshr core_data_std_sh
    ∷ entry 0x00200010 0x0FE00090 arm_cdata_eor_rshr core_data_std_sh
    ∷ entry 0x01E00010 0x0FE00090 arm_cdata_mvn_rshr core_data_std_sh
    ∷ entry 0x01800010 0x0FE00090 arm_cdata_orr_rshr core_data_std_sh
    ∷ entry 0x00600010 0x0FE00090 arm_cdata_rsb_rshr core_data_std_sh
    ∷ entry 0x00E00010 0x0FE00090 arm_cdata_rsc_rshr core_data_std_sh
    ∷ entry 0x00C00010 0x0FE00090 arm_cdata_sbc_rshr core_data_std_sh
    ∷ entry 0x00400010 0x0FE00090 arm_cdata_sub_rshr core_data_std_sh
    ∷ entry 0xF8100000 0xFE500000 arm_exc_rfe core_exc
    ∷ entry 0xF8400000 0xFE500000 arm_exc_srs core_exc
    ∷ entry 0x041F0000 0x0E5F0000 arm_cldst_ldr_lbl core_ldst
    ∷ entry 0x045F0000 0x0E5F0000 arm_cldst_ldrb_lbl core_ldst
    ∷ entry 0x004000D0 0x0E5000F0 arm_cldstx_ldrd_imm core_ldstrd
    ∷ entry 0x000000D0 0x0E5000F0 arm_cldstx_ldrd_r core_ldstrd
    ∷ entry 0x004000F0 0x0E5000F0 arm_cldstx_strd_imm core_ldstrd
    ∷ entry 0x000000F0 0x0E5000F0 arm_cldstx_strd_r core_ldstrd
    ∷ entry 0x005000B0 0x0E5000F0 arm_cldstx_ldrh_imm core_ldstrh
    ∷ entry 0x001000B0 0x0E5000F0 arm_cldstx_ldrh_r core_ldstrh
    ∷ entry 0x004000B0 0x0E5000F0 arm_cldstx_strh_imm core_ldstrh
    ∷ entry 0x000000B0 0x0E5000F0 arm_cldstx_strh_r core_ldstrh
    ∷ entry 0x005000D0 0x0E5000F0 arm_cldstx_ldrsb_imm core_ldstrsb
    ∷ entry 0x001000D0 0x0E5000F0 arm_cldstx_ldrsb_r core_ldstrsb
    ∷ entry 0x005000F0 0x0E5000F0 arm_cldstx_ldrsh_imm core_ldstsh
    ∷ entry 0x001000F0 0x0E5000F0 arm_cldstx_ldrsh_r core_ldstsh
    ∷ entry 0x0C400000 0x0FF00000 arm_cop_mcrr coproc
    ∷ entry 0x0C500000 0x0FF00000 arm_cop_mrrc coproc
    ∷ entry 0x0C1F0000 0x0E1F0000 arm_cop_ldc_pc coproc
    ∷ entry 0xFC000000 0xFE100000 arm_cop_stc2 coproc
    ∷ entry 0xFC100000 0xFE100000 arm_cop_ldc2 coproc
    ∷ entry 0x03000000 0x0FF00000 arm_cmisc_movw core_data_misc
    ∷ entry 0x03400000 0x0FF00000 arm_cmisc_movt core_data_misc
    ∷ entry 0x03700000 0x0FF00000 arm_cdata_cmn_imm core_data_std_i
    ∷ entry 0x03500000 0x0FF00000 arm_cdata_cmp_imm core_data_std_i
    ∷ entry 0x03300000 0x0FF00000 arm_cdata_teq_imm core_data_std_i
    ∷ entry 0x03100000 0x0FF00000 arm_cdata_tst_imm core_data_std_i
    ∷ entry 0x00A00000 0x0FE00010 arm_cdata_adc_r core_data_std_r
    ∷ entry 0x00800000 0x0FE00010 arm_cdata_add_r core_data_std_r
    ∷ entry 0x00000000 0x0FE00010 arm_cdata_and_r core_data_std_r
    ∷ entry 0x01C00000 0x0FE00010 arm_cdata_bic_r core_data_std_r
    ∷ entry 0x00200000 0x0FE00010 arm_cdata_eor_r core_data_std_r
    ∷ entry 0x01E00000 0x0FE00010 arm_cdata_mvn_r core_data_std_r
    ∷ entry 0x01800000 0x0FE00010 arm_cdata_orr_r core_data_std_r
    ∷ entry 0x00600000 0x0FE00010 arm_cdata_rsb_r core_data_std_r
    ∷ entry 0x00E00000 0x0FE00010 arm_cdata_rsc_r core_data_std_r
    ∷ entry 0x00C00000 0x0FE00010 arm_cdata_sbc_r core_data_std_r
    ∷ entry 0x00400000 0x0FE00010 arm_cdata_sub_r core_data_std_r
    ∷ entry 0x06700000 0x0F700010 arm_cldst_ldrbt_r core_ldst
    ∷ entry 0x06300000 0x0F700010 arm_cldst_ldrt_r core_ldst
    ∷ entry 0x06600000 0x0F700010 arm_cldst_strbt_r core_ldst
    ∷ entry 0x06200000 0x0F700010 arm_cldst_strt_r core_ldst
    ∷ entry 0x0C100A00 0x0E100F00 arm_vldstx_vldm32 vfp_ldst_ext
    ∷ entry 0x0C100B00 0x0E100F00 arm_vldstx_vldm64 vfp_ldst_ext
    ∷ entry 0x0C000A00 0x0E100F00 arm_vldstx_vstm32 vfp_ldst_ext
    ∷ entry 0x0C000B00 0x0E100F00 arm_vldstx_vstm64 vfp_ldst_ext
    ∷ entry 0xFA000000 0xFE000000 arm_bra_blx_lbl branch
    ∷ entry 0x02A00000 0x0FE00000 arm_cdata_adc_imm core_data_std_i
    ∷ entry 0x02800000 0x0FE00000 arm_cdata_add_imm core_data_std_i
    ∷ entry 0x02000000 0x0FE00000 arm_cdata_and_imm core_data_std_i
    ∷ entry 0x03C00000 0x0FE00000 arm_cdata_bic_imm core_data_std_i
    ∷ entry 0x02200000 0x0FE00000 arm_cdata_eor_imm core_data_std_i
    ∷ entry 0x03A00000 0x0FE00000 arm_cdata_mov_imm core_data_std_i
    ∷ entry 0x03E00000 0x0FE00000 arm_cdata_mvn_imm core_data_std_i
    ∷ entry 0x03800000 0x0FE00000 arm_cdata_orr_imm core_data_std_i
    ∷ entry 0x02600000 0x0FE00000 arm_cdata_rsb_imm core_data_std_i
    ∷ entry 0x02E00000 0x0FE00000 arm_cdata_rsc_imm core_data_std_i
    ∷ entry 0x02C00000 0x0FE00000 arm_cdata_sbc_imm core_data_std_i
    ∷ entry 0x02400000 0x0FE00000 arm_cdata_sub_imm core_data_std_i
    ∷ entry 0x04700000 0x0F700000 arm_cldst_ldrbt_imm core_ldst
    ∷ entry 0x04300000 0x0F700000 arm_cldst_ldrt_imm core_ldst
    ∷ entry 0x04600000 0x0F700000 arm_cldst_strbt_imm core_ldst
    ∷ entry 0x04200000 0x0F700000 arm_cldst_strt_imm core_ldst
    ∷ entry 0x08100000 0x0FD00000 arm_cldstm_dlmda core_ldstm
    ∷ entry 0x08900000 0x0FD00000 arm_cldstm_ldm core_ldstm
    ∷ entry 0x09100000 0x0FD00000 arm_cldstm_ldmdb core_ldstm
    ∷ entry 0x09900000 0x0FD00000 arm_cldstm_ldmib core_ldstm
    ∷ entry 0x08800000 0x0FD00000 arm_cldstm_stm core_ldstm
    ∷ entry 0x08000000 0x0FD00000 arm_cldstm_stmda core_ldstm
    ∷ entry 0x09000000 0x0FD00000 arm_cldstm_stmdb core_ldstm
    ∷ entry 0x09800000 0x0FD00000 arm_cldstm_stmib core_ldstm
    ∷ entry 0x03200000 0x0FB00000 arm_mux_msr_i_pr_hints mux
    ∷ entry 0x0E100010 0x0F100010 arm_cop_mrc coproc
    ∷ entry 0x0E000010 0x0F100010 arm_cop_mcr coproc
    ∷ entry 0x06100000 0x0E500010 arm_cldst_ldr_r core_ldst
    ∷ entry 0x06500000 0x0E500010 arm_cldst_ldrb_r core_ldst
    ∷ entry 0x06000000 0x0E500010 arm_cldst_str_r core_ldst
    ∷ entry 0x06400000 0x0E500010 arm_cldst_strb_r core_ldst
    ∷ entry 0x08508000 0x0E508000 arm_cldstm_ldm_pc core_ldstm
    ∷ entry 0x08500000 0x0E508000 arm_cldstm_ldm_usr core_ldstm
    ∷ entry 0x0E000000 0x0F000010 arm_cop_cdp coproc
    ∷ entry 0x04100000 0x0E500000 arm_cldst_ldr_imm core_ldst
    ∷ entry 0x04500000 0x0E500000 arm_cldst_ldrb_imm core_ldst
    ∷ entry 0x04000000 0x0E500000 arm_cldst_str_imm core_ldst
    ∷ entry 0x04400000 0x0E500000 arm_cldst_strb_imm core_ldst
    ∷ entry 0x08400000 0x0E500000 arm_cldstm_stm_usr core_ldstm
    ∷ entry 0x0B000000 0x0F000000 arm_bra_bl_lbl branch
    ∷ entry 0x0A000000 0x0F000000 arm_bra_b_lbl branch
    ∷ entry 0x0C100000 0x0E100000 arm_cop_ldc coproc
    ∷ entry 0x0C000000 0x0E100000 arm_cop_stc coproc
    ∷ entry 0x0F000000 0x0F000000 arm_exc_svc core_exc
    ∷ []
