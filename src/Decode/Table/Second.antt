-- ===== src/Decode/Table/Second.antt =====
-- The rows 125 to 249 of the table (ARM_decode_table_data.h).
use rpi_stub.Common.{List, [], ◌∷◌}
use rpi_stub.Decode.Extra.{
  arm_bra_blx_r, arm_bra_bx_r, arm_bra_bxj_r, arm_cldstx_ldrd_lbl, arm_cldstx_ldrh_lbl,
  arm_cldstx_ldrsb_lbl, arm_cldstx_ldrsh_lbl, arm_cmac_mls, arm_cmac_umaal, arm_cmisc_bfc,
  arm_cmisc_clz, arm_cmisc_rbit, arm_cmisc_rev, arm_cmisc_rev16, arm_cmisc_revsh, arm_cmisc_sel,
  arm_cmisc_usada8, arm_cop_ldc2_pc, arm_cop_mcrr2, arm_cop_mrrc2, arm_div_sdiv, arm_div_udiv,
  arm_fp_vcvt_sf6432, arm_mux_mrs_r_pr, arm_mux_vbic_vmvn, arm_mux_vorr_i_vmov_i,
  arm_mux_vrshrn_q_imm, arm_mux_vshrn_q_imm, arm_pack_sxtab, arm_pack_sxtab16, arm_pack_sxtah,
  arm_pack_uxtab, arm_pack_uxtab16, arm_pack_uxtah, arm_par_qadd16, arm_par_qadd8, arm_par_qasx,
  arm_par_qsax, arm_par_qsub16, arm_par_qsub8, arm_par_sadd16, arm_par_sadd8, arm_par_sasx,
  arm_par_shadd16, arm_par_shadd8, arm_par_shasx, arm_par_shsax, arm_par_shsub16, arm_par_shsub8,
  arm_par_ssax, arm_par_ssub16, arm_par_ssub8, arm_par_uadd16, arm_par_uadd8, arm_par_uasx,
  arm_par_uhadd16, arm_par_uhadd8, arm_par_uhasx, arm_par_uhsax, arm_par_uhsub16, arm_vcmp_vceq_dt,
  arm_vcmp_vcge, arm_vcmp_vcgt_dt, arm_vcmp_vtst, arm_vfpxfer_vmov_d, arm_vfpxfer_vmov_ss,
  arm_vfpxfer_vmrs_r, arm_vfpxfer_vmsr_r, arm_vldste_vld1_one, arm_vldste_vld2_one,
  arm_vldste_vld3_one, arm_vldste_vld4_one, arm_vldste_vst1_one, arm_vldste_vst2_one,
  arm_vldste_vst3_one, arm_vldste_vst4_one, arm_vmac_vfm, arm_vmac_vmla_dt, arm_vmac_vmla_dtx,
  arm_vmac_vmlal_dt, arm_vmac_vmlal_dtx, arm_vmac_vmls_dt, arm_vmac_vmls_dtx, arm_vmac_vmlsl_dt,
  arm_vmac_vmlsl_dtx, arm_vmac_vmul_dt, arm_vmac_vmul_dtx, arm_vmac_vmull_dt, arm_vmac_vmull_dtx,
  arm_vmac_vqdmulh_dt, arm_vmac_vqdmulh_dtx, arm_vmac_vqrdmulh_dt, arm_vmac_vqrdmulh_dtx,
  arm_vmisc_vaba_dt, arm_vmisc_vabal_dt, arm_vmisc_vabd_dt, arm_vmisc_vabdl_dt,
  arm_vmisc_vcvt_tdtmb, arm_vmisc_vmax_dt, arm_vmisc_vmin_dt, arm_vmisc_vpmax_dt,
  arm_vmisc_vpmin_dt, arm_vpar_vadd_dt, arm_vpar_vadd_lw_dt, arm_vpar_vhadd, arm_vpar_vhsub,
  arm_vpar_vpadd_dt, arm_vpar_vqadd_dt, arm_vpar_vqsub_dt, arm_vpar_vrhadd, arm_vpar_vsub_dt,
  arm_vpar_vsubl_dt, arm_vsh_vqrshl_dt, arm_vsh_vqshl_dt, arm_vsh_vrshl_dt, arm_vsh_vrshr_dt_imm,
  arm_vsh_vrsra_dt_imm, arm_vsh_vshl_dt, arm_vsh_vshl_imm, arm_vsh_vsli_imm, arm_vsh_vsra_dt_imm,
  arm_vsh_vsri_imm, branch, coproc, core_data_div, core_data_mac, core_data_macd, core_data_misc,
  core_data_pack, core_data_par, core_ldstrd, core_ldstrh, core_ldstrsb, core_ldstsh, fp, mux,
  v_comp, v_mac, v_misc, v_par, v_shift, vfp_ldst_elem, vfp_xfer_reg,
}
use rpi_stub.Decode.Row.{DecTblEntry, entry}

unfoldable pub rows_from_125 : List DecTblEntry
rows_from_125 =
    entry 0xF2800030 0xFEB800B0 arm_mux_vbic_vmvn mux
    ∷ entry 0xF2800030 0xFEB800B0 arm_mux_vbic_vmvn mux
    ∷ entry 0xF2800010 0xFEB800B0 arm_mux_vorr_i_vmov_i mux
    ∷ entry 0xF2800850 0xFE800ED0 arm_mux_vrshrn_q_imm mux
    ∷ entry 0xF2800810 0xFE800ED0 arm_mux_vshrn_q_imm mux
    ∷ entry 0xF3000810 0xFF800F10 arm_vcmp_vceq_dt v_comp
    ∷ entry 0xF2000810 0xFF800F10 arm_vcmp_vtst v_comp
    ∷ entry 0xF2000C10 0xFF800F10 arm_vmac_vfm v_mac
    ∷ entry 0xF2000900 0xFF800F10 arm_vmac_vmla_dt v_mac
    ∷ entry 0xF2800800 0xFE800F50 arm_vmac_vmlal_dt v_mac
    ∷ entry 0xF2800240 0xFE800F50 arm_vmac_vmlal_dtx v_mac
    ∷ entry 0xF3000900 0xFF800F10 arm_vmac_vmls_dt v_mac
    ∷ entry 0xF2800A00 0xFE800F50 arm_vmac_vmlsl_dt v_mac
    ∷ entry 0xF2800640 0xFE800F50 arm_vmac_vmlsl_dtx v_mac
    ∷ entry 0xF2800A40 0xFE800F50 arm_vmac_vmull_dtx v_mac
    ∷ entry 0xF2000B00 0xFF800F10 arm_vmac_vqdmulh_dt v_mac
    ∷ entry 0xF2800C40 0xFE800F50 arm_vmac_vqdmulh_dtx v_mac
    ∷ entry 0xF3000B00 0xFF800F10 arm_vmac_vqrdmulh_dt v_mac
    ∷ entry 0xF2800D40 0xFE800F50 arm_vmac_vqrdmulh_dtx v_mac
    ∷ entry 0xF2800500 0xFE800F50 arm_vmisc_vabal_dt v_misc
    ∷ entry 0xF2800700 0xFE800F50 arm_vmisc_vabdl_dt v_misc
    ∷ entry 0xF2000800 0xFF800F10 arm_vpar_vadd_dt v_par
    ∷ entry 0xF2000B10 0xFF800F10 arm_vpar_vpadd_dt v_par
    ∷ entry 0xF3000800 0xFF800F10 arm_vpar_vsub_dt v_par
    ∷ entry 0xF2800510 0xFF800F10 arm_vsh_vshl_imm v_shift
    ∷ entry 0xF3800510 0xFF800F10 arm_vsh_vsli_imm v_shift
    ∷ entry 0xF3800410 0xFF800F10 arm_vsh_vsri_imm v_shift
    ∷ entry 0x0C400B10 0x0FE00FD0 arm_vfpxfer_vmov_d vfp_xfer_reg
    ∷ entry 0x0C400A10 0x0FE00FD0 arm_vfpxfer_vmov_ss vfp_xfer_reg
    ∷ entry 0x07C0001E 0x0FE0007E arm_cmisc_bfc core_data_misc
    ∷ entry 0x004F00D0 0x0E5F00F0 arm_cldstx_ldrd_lbl core_ldstrd
    ∷ entry 0x005F00B0 0x0E5F00F0 arm_cldstx_ldrh_lbl core_ldstrh
    ∷ entry 0x005F00D0 0x0E5F00F0 arm_cldstx_ldrsb_lbl core_ldstrsb
    ∷ entry 0x005F00F0 0x0E5F00F0 arm_cldstx_ldrsh_lbl core_ldstsh
    ∷ entry 0x0EB80A40 0x0FB80E50 arm_fp_vcvt_sf6432 fp
    ∷ entry 0x01000000 0x0FF002F0 arm_mux_mrs_r_pr mux
    ∷ entry 0xF2800010 0xFEB80090 arm_mux_vorr_i_vmov_i mux
    ∷ entry 0xF2800010 0xFE800F10 arm_mux_vorr_i_vmov_i mux
    ∷ entry 0xF2000310 0xFE800F10 arm_vcmp_vcge v_comp
    ∷ entry 0xF2000300 0xFE800F10 arm_vcmp_vcgt_dt v_comp
    ∷ entry 0xF2800040 0xFE800E50 arm_vmac_vmla_dtx v_mac
    ∷ entry 0xF2800440 0xFE800E50 arm_vmac_vmls_dtx v_mac
    ∷ entry 0xF2000910 0xFE800F10 arm_vmac_vmul_dt v_mac
    ∷ entry 0xF2800840 0xFE800E50 arm_vmac_vmul_dtx v_mac
    ∷ entry 0xF2800C00 0xFE800D50 arm_vmac_vmull_dt v_mac
    ∷ entry 0xF2000710 0xFE800F10 arm_vmisc_vaba_dt v_misc
    ∷ entry 0xF2000700 0xFE800F10 arm_vmisc_vabd_dt v_misc
    ∷ entry 0xF2800E10 0xFE800E90 arm_vmisc_vcvt_tdtmb v_misc
    ∷ entry 0xF2000600 0xFE800F10 arm_vmisc_vmax_dt v_misc
    ∷ entry 0xF2000610 0xFE800F10 arm_vmisc_vmin_dt v_misc
    ∷ entry 0xF2000A00 0xFE800F10 arm_vmisc_vpmax_dt v_misc
    ∷ entry 0xF2000A10 0xFE800F10 arm_vmisc_vpmin_dt v_misc
    ∷ entry 0xF2800000 0xFE800E50 arm_vpar_vadd_lw_dt v_par
    ∷ entry 0xF2000000 0xFE800F10 arm_vpar_vhadd v_par
    ∷ entry 0xF2000200 0xFE800F10 arm_vpar_vhsub v_par
    ∷ entry 0xF2000010 0xFE800F10 arm_vpar_vqadd_dt v_par
    ∷ entry 0xF2000210 0xFE800F10 arm_vpar_vqsub_dt v_par
    ∷ entry 0xF2000100 0xFE800F10 arm_vpar_vrhadd v_par
    ∷ entry 0xF2800200 0xFE800E50 arm_vpar_vsubl_dt v_par
    ∷ entry 0xF2000510 0xFE800F10 arm_vsh_vqrshl_dt v_shift
    ∷ entry 0xF2000410 0xFE800F10 arm_vsh_vqshl_dt v_shift
    ∷ entry 0xF2000500 0xFE800F10 arm_vsh_vrshl_dt v_shift
    ∷ entry 0xF2800210 0xFE800F10 arm_vsh_vrshr_dt_imm v_shift
    ∷ entry 0xF2800310 0xFE800F10 arm_vsh_vrsra_dt_imm v_shift
    ∷ entry 0xF2000400 0xFE800F10 arm_vsh_vshl_dt v_shift
    ∷ entry 0xF2800110 0xFE800F10 arm_vsh_vsra_dt_imm v_shift
    ∷ entry 0xF4A00000 0xFFB00300 arm_vldste_vld1_one vfp_ldst_elem
    ∷ entry 0xF4A00100 0xFFB00300 arm_vldste_vld2_one vfp_ldst_elem
    ∷ entry 0xF4A00200 0xFFB00300 arm_vldste_vld3_one vfp_ldst_elem
    ∷ entry 0xF4A00300 0xFFB00300 arm_vldste_vld4_one vfp_ldst_elem
    ∷ entry 0xF4800000 0xFFB00300 arm_vldste_vst1_one vfp_ldst_elem
    ∷ entry 0xF4800100 0xFFB00300 arm_vldste_vst2_one vfp_ldst_elem
    ∷ entry 0xF4800200 0xFFB00300 arm_vldste_vst3_one vfp_ldst_elem
    ∷ entry 0xF4800300 0xFFB00300 arm_vldste_vst4_one vfp_ldst_elem
    ∷ entry 0x0EF00A10 0x0FF00F10 arm_vfpxfer_vmrs_r vfp_xfer_reg
    ∷ entry 0x0EE00A10 0x0FF00F10 arm_vfpxfer_vmsr_r vfp_xfer_reg
    ∷ entry 0x01200020 0x0FF000F0 arm_bra_bxj_r branch
    ∷ entry 0x01200010 0x0FF000F0 arm_bra_bx_r branch
    ∷ entry 0x01200030 0x0FF000F0 arm_bra_blx_r branch
    ∷ entry 0xFC400000 0xFFF00000 arm_cop_mcrr2 coproc
    ∷ entry 0xFC1F0000 0xFE1F0000 arm_cop_ldc2_pc coproc
    ∷ entry 0xFC500000 0xFFF00000 arm_cop_mrrc2 coproc
    ∷ entry 0x07100010 0x0FF000F0 arm_div_sdiv core_data_div
    ∷ entry 0x07300010 0x0FF000F0 arm_div_udiv core_data_div
    ∷ entry 0x00600090 0x0FF000F0 arm_cmac_mls core_data_mac
    ∷ entry 0x00400090 0x0FF000F0 arm_cmac_umaal core_data_macd
    ∷ entry 0x01600010 0x0FF000F0 arm_cmisc_clz core_data_misc
    ∷ entry 0x06F00030 0x0FF000F0 arm_cmisc_rbit core_data_misc
    ∷ entry 0x06B00030 0x0FF000F0 arm_cmisc_rev core_data_misc
    ∷ entry 0x06B000B0 0x0FF000F0 arm_cmisc_rev16 core_data_misc
    ∷ entry 0x06F000B0 0x0FF000F0 arm_cmisc_revsh core_data_misc
    ∷ entry 0x068000B0 0x0FF000F0 arm_cmisc_sel core_data_misc
    ∷ entry 0x07800010 0x0FF000F0 arm_cmisc_usada8 core_data_misc
    ∷ entry 0x06A00070 0x0FF000F0 arm_pack_sxtab core_data_pack
    ∷ entry 0x06800070 0x0FF000F0 arm_pack_sxtab16 core_data_pack
    ∷ entry 0x06B00070 0x0FF000F0 arm_pack_sxtah core_data_pack
    ∷ entry 0x06E00070 0x0FF000F0 arm_pack_uxtab core_data_pack
    ∷ entry 0x06C00070 0x0FF000F0 arm_pack_uxtab16 core_data_pack
    ∷ entry 0x06F00070 0x0FF000F0 arm_pack_uxtah core_data_pack
    ∷ entry 0x06200010 0x0FF000F0 arm_par_qadd16 core_data_par
    ∷ entry 0x06200090 0x0FF000F0 arm_par_qadd8 core_data_par
    ∷ entry 0x06200030 0x0FF000F0 arm_par_qasx core_data_par
    ∷ entry 0x06200050 0x0FF000F0 arm_par_qsax core_data_par
    ∷ entry 0x06200070 0x0FF000F0 arm_par_qsub16 core_data_par
    ∷ entry 0x062000F0 0x0FF000F0 arm_par_qsub8 core_data_par
    ∷ entry 0x06100010 0x0FF000F0 arm_par_sadd16 core_data_par
    ∷ entry 0x06100090 0x0FF000F0 arm_par_sadd8 core_data_par
    ∷ entry 0x06100030 0x0FF000F0 arm_par_sasx core_data_par
    ∷ entry 0x06300010 0x0FF000F0 arm_par_shadd16 core_data_par
    ∷ entry 0x06300090 0x0FF000F0 arm_par_shadd8 core_data_par
    ∷ entry 0x06300030 0x0FF000F0 arm_par_shasx core_data_par
    ∷ entry 0x06300050 0x0FF000F0 arm_par_shsax core_data_par
    ∷ entry 0x06300070 0x0FF000F0 arm_par_shsub16 core_data_par
    ∷ entry 0x063000F0 0x0FF000F0 arm_par_shsub8 core_data_par
    ∷ entry 0x06100050 0x0FF000F0 arm_par_ssax core_data_par
    ∷ entry 0x06100070 0x0FF000F0 arm_par_ssub16 core_data_par
    ∷ entry 0x061000F0 0x0FF000F0 arm_par_ssub8 core_data_par
    ∷ entry 0x06500010 0x0FF000F0 arm_par_uadd16 core_data_par
    ∷ entry 0x06500090 0x0FF000F0 arm_par_uadd8 core_data_par
    ∷ entry 0x06500030 0x0FF000F0 arm_par_uasx core_data_par
    ∷ entry 0x06700010 0x0FF000F0 arm_par_uhadd16 core_data_par
    ∷ entry 0x06700090 0x0FF000F0 arm_par_uhadd8 core_data_par
    ∷ entry 0x06700030 0x0FF000F0 arm_par_uhasx core_data_par
    ∷ entry 0x06700050 0x0FF000F0 arm_par_uhsax core_data_par
    ∷ entry 0x06700070 0x0FF000F0 arm_par_uhsub16 core_data_par
    ∷ []
