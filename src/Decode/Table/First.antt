-- ===== src/Decode/Table/First.antt =====
-- The rows 0 to 124 of the table (ARM_decode_table_data.h).
use rpi_stub.Common.{List, [], ◌∷◌}
use rpi_stub.Decode.Extra.{
  arm_cldstm_pop_r, arm_cldstm_push_r, arm_cmac_smmul, arm_cmac_smuad, arm_cmac_smusd,
  arm_cmisc_usad8, arm_cstat_cps, arm_exc_udf, arm_fp_vcmp_r, arm_fp_vcmp_z, arm_fp_vcvt_f3216,
  arm_fp_vcvt_f6432, arm_fp_vcvt_f6432_bc, arm_misc_clrex, arm_misc_dbg, arm_misc_dmb, arm_misc_dsb,
  arm_misc_isb, arm_misc_pld_lbl, arm_misc_setend, arm_misc_sev, arm_mux_lsl_i_mov,
  arm_mux_lsl_i_mov_pc, arm_mux_msr_i_pr_hints, arm_mux_msr_r_pr, arm_mux_ror_i_rrx,
  arm_mux_vmovn_q, arm_mux_vorr_vmov_nm, arm_mux_vrshrn_q_imm, arm_mux_vshll_i_vmovl,
  arm_mux_vshrn_q_imm, arm_mux_wfe_wfi, arm_pack_sxtb, arm_pack_sxtb16, arm_pack_sxth,
  arm_pack_uxtb, arm_pack_uxtb16, arm_pack_uxth, arm_ret_asr_imm, arm_ret_lsr_imm, arm_ret_ror_imm,
  arm_ret_rrx_pc, arm_vbits_vand, arm_vbits_vbic, arm_vbits_vbif, arm_vbits_vbit, arm_vbits_vbsl,
  arm_vbits_veor, arm_vbits_vmov_6432_r, arm_vbits_vmvn, arm_vbits_vorn, arm_vcmp_vacge,
  arm_vcmp_vacgt, arm_vcmp_vceq, arm_vcmp_vceq_z, arm_vcmp_vcge, arm_vcmp_vcge_z, arm_vcmp_vcgt_dt,
  arm_vcmp_vcgt_z, arm_vcmp_vcle_z, arm_vcmp_vclt_z, arm_vfpxfer_vmrs_fpscr, arm_vfpxfer_vmsr_fpscr,
  arm_vldste_vld1_all, arm_vldste_vld2_all, arm_vldste_vld3_all, arm_vldste_vld4_all,
  arm_vldstx_vpop32, arm_vldstx_vpop64, arm_vldstx_vpush32, arm_vldstx_vpush64, arm_vmac_vmla_f,
  arm_vmac_vmls_f, arm_vmac_vmul_f, arm_vmac_vqdmlal_dt, arm_vmac_vqdmlal_dtx, arm_vmac_vqdmlsl_dt,
  arm_vmac_vqdmlsl_dtx, arm_vmac_vqdmull_dt, arm_vmac_vqdmull_dtx, arm_vmisc_vabd_f,
  arm_vmisc_vabs_dt, arm_vmisc_vabs_f64, arm_vmisc_vcls_dt, arm_vmisc_vclz_dt, arm_vmisc_vcnt,
  arm_vmisc_vcvt_f3216, arm_vmisc_vcvt_tdtm, arm_vmisc_vdup_x, arm_vmisc_vmax_f, arm_vmisc_vmin_f,
  arm_vmisc_vneg_dt, arm_vmisc_vneg_f64, arm_vmisc_vpmax_f, arm_vmisc_vpmin_f, arm_vmisc_vqabs_dt,
  arm_vmisc_vqneg_dt, arm_vmisc_vrecpe_dt, arm_vmisc_vrecps_f, arm_vmisc_vrev, arm_vmisc_vrsqrte_dt,
  arm_vmisc_vrsqrts_f, arm_vmisc_vsqrt_f64, arm_vmisc_vswp, arm_vmisc_vtbl, arm_vmisc_vtbx,
  arm_vmisc_vtrn, arm_vmisc_vuzp, arm_vmisc_vzip, arm_vpar_vadd_f, arm_vpar_vaddhn_dt,
  arm_vpar_vpadal_dt, arm_vpar_vpadd_f, arm_vpar_vpaddl_dt, arm_vpar_vraddhn_dt,
  arm_vpar_vrsubhn_dt, arm_vpar_vsub_f, arm_vpar_vsubhn_dt, arm_vsh_vshll_imm, core_data_bit,
  core_data_mac, core_data_misc, core_data_pack, core_exc, core_ldstm, core_misc, core_status, fp,
  mux, v_bits, v_comp, v_mac, v_misc, v_par, v_shift, vfp_ldst_elem, vfp_ldst_ext, vfp_xfer_reg,
}
use rpi_stub.Decode.Row.{DecTblEntry, entry}

unfoldable pub rows_from_0 : List DecTblEntry
rows_from_0 =
    entry 0x049D0004 0x0FFF0FFE arm_cldstm_pop_r core_ldstm
    ∷ entry 0x052D0004 0x0FFF0FFE arm_cldstm_push_r core_ldstm
    ∷ entry 0x01B0F060 0x0FF0FFF0 arm_ret_rrx_pc core_data_bit
    ∷ entry 0xF3B20200 0xFFB30FD0 arm_mux_vmovn_q mux
    ∷ entry 0xF3B20300 0xFFB30FD0 arm_vsh_vshll_imm v_shift
    ∷ entry 0x03200004 0x0FFF00FE arm_misc_sev core_misc
    ∷ entry 0x01A0F000 0x0FE0FFF0 arm_mux_lsl_i_mov_pc mux
    ∷ entry 0x03200000 0x0FFF00FE arm_mux_msr_i_pr_hints mux
    ∷ entry 0x03200000 0x0FFF00FE arm_mux_msr_i_pr_hints mux
    ∷ entry 0x03200002 0x0FFF00FE arm_mux_wfe_wfi mux
    ∷ entry 0x03200002 0x0FFF00FE arm_mux_wfe_wfi mux
    ∷ entry 0xF3B00580 0xFFB30F90 arm_vbits_vmvn v_bits
    ∷ entry 0xF3B00400 0xFFB30F90 arm_vmisc_vcls_dt v_misc
    ∷ entry 0xF3B00480 0xFFB30F90 arm_vmisc_vclz_dt v_misc
    ∷ entry 0xF3B00500 0xFFB30F90 arm_vmisc_vcnt v_misc
    ∷ entry 0xF3B20600 0xFFB30ED0 arm_vmisc_vcvt_f3216 v_misc
    ∷ entry 0xF3B00700 0xFFB30F90 arm_vmisc_vqabs_dt v_misc
    ∷ entry 0xF3B00780 0xFFB30F90 arm_vmisc_vqneg_dt v_misc
    ∷ entry 0xF3B20000 0xFFB30F90 arm_vmisc_vswp v_misc
    ∷ entry 0xF3B20080 0xFFB30F90 arm_vmisc_vtrn v_misc
    ∷ entry 0xF3B20100 0xFFB30F90 arm_vmisc_vuzp v_misc
    ∷ entry 0xF3B20180 0xFFB30F90 arm_vmisc_vzip v_misc
    ∷ entry 0xF3B20200 0xFFB30F10 arm_mux_vmovn_q mux
    ∷ entry 0xF2800A10 0xFE870FD0 arm_mux_vshll_i_vmovl mux
    ∷ entry 0xF3B10100 0xFFB30B90 arm_vcmp_vceq_z v_comp
    ∷ entry 0xF3B10080 0xFFB30B90 arm_vcmp_vcge_z v_comp
    ∷ entry 0xF3B10000 0xFFB30B90 arm_vcmp_vcgt_z v_comp
    ∷ entry 0xF3B10180 0xFFB30B90 arm_vcmp_vcle_z v_comp
    ∷ entry 0xF3B10200 0xFFB30B90 arm_vcmp_vclt_z v_comp
    ∷ entry 0xF3B10300 0xFFB30B90 arm_vmisc_vabs_dt v_misc
    ∷ entry 0xF3B10380 0xFFB30B90 arm_vmisc_vneg_dt v_misc
    ∷ entry 0xF3B30400 0xFFB30E90 arm_vmisc_vrecpe_dt v_misc
    ∷ entry 0xF3B30480 0xFFB30E90 arm_vmisc_vrsqrte_dt v_misc
    ∷ entry 0xF3B00600 0xFFB30F10 arm_vpar_vpadal_dt v_par
    ∷ entry 0xF3B00200 0xFFB30F10 arm_vpar_vpaddl_dt v_par
    ∷ entry 0xF1010000 0xFFF100F0 arm_misc_setend core_misc
    ∷ entry 0x0EB70AC0 0x0FBF0ED0 arm_fp_vcvt_f6432 fp
    ∷ entry 0x0EB00A40 0x0FBF0ED0 arm_vbits_vmov_6432_r v_bits
    ∷ entry 0x0EB00AC0 0x0FBF0ED0 arm_vmisc_vabs_f64 v_misc
    ∷ entry 0x0EB10A40 0x0FBF0ED0 arm_vmisc_vneg_f64 v_misc
    ∷ entry 0x0EB10AC0 0x0FBF0ED0 arm_vmisc_vsqrt_f64 v_misc
    ∷ entry 0xF3B30600 0xFFB30E10 arm_vmisc_vcvt_tdtm v_misc
    ∷ entry 0xF3B00C00 0xFFB00F90 arm_vmisc_vdup_x v_misc
    ∷ entry 0xF3B00000 0xFFB30E10 arm_vmisc_vrev v_misc
    ∷ entry 0x0EF10A10 0x0FFF0F10 arm_vfpxfer_vmrs_fpscr vfp_xfer_reg
    ∷ entry 0x0EE10A10 0x0FFF0F10 arm_vfpxfer_vmsr_fpscr vfp_xfer_reg
    ∷ entry 0x0780F010 0x0FF0F0F0 arm_cmisc_usad8 core_data_misc
    ∷ entry 0x06AF0070 0x0FFF00F0 arm_pack_sxtb core_data_pack
    ∷ entry 0x068F0070 0x0FFF00F0 arm_pack_sxtb16 core_data_pack
    ∷ entry 0x06BF0070 0x0FFF00F0 arm_pack_sxth core_data_pack
    ∷ entry 0x06EF0070 0x0FFF00F0 arm_pack_uxtb core_data_pack
    ∷ entry 0x06CF0070 0x0FFF00F0 arm_pack_uxtb16 core_data_pack
    ∷ entry 0x06FF0070 0x0FFF00F0 arm_pack_uxth core_data_pack
    ∷ entry 0xE7F000F0 0xFFF000F0 arm_exc_udf core_exc
    ∷ entry 0x032000F0 0x0FFF00F0 arm_misc_dbg core_misc
    ∷ entry 0xF5700010 0xFFF000F0 arm_misc_clrex core_misc
    ∷ entry 0xF5700050 0xFFF000F0 arm_misc_dmb core_misc
    ∷ entry 0xF5700040 0xFFF000F0 arm_misc_dsb core_misc
    ∷ entry 0xF5700060 0xFFF000F0 arm_misc_isb core_misc
    ∷ entry 0x0EB40A40 0x0FBF0E50 arm_fp_vcmp_r fp
    ∷ entry 0x0EB50A40 0x0FBF0E50 arm_fp_vcmp_z fp
    ∷ entry 0xF2200110 0xFFB00F10 arm_mux_vorr_vmov_nm mux
    ∷ entry 0xF2200110 0xFFB00F10 arm_mux_vorr_vmov_nm mux
    ∷ entry 0xF2800850 0xFF800FD0 arm_mux_vrshrn_q_imm mux
    ∷ entry 0xF2800810 0xFF800FD0 arm_mux_vshrn_q_imm mux
    ∷ entry 0xF2000110 0xFFB00F10 arm_vbits_vand v_bits
    ∷ entry 0xF2100110 0xFFB00F10 arm_vbits_vbic v_bits
    ∷ entry 0xF3300110 0xFFB00F10 arm_vbits_vbif v_bits
    ∷ entry 0xF3200110 0xFFB00F10 arm_vbits_vbit v_bits
    ∷ entry 0xF3100110 0xFFB00F10 arm_vbits_vbsl v_bits
    ∷ entry 0xF3000110 0xFFB00F10 arm_vbits_veor v_bits
    ∷ entry 0xF2300110 0xFFB00F10 arm_vbits_vorn v_bits
    ∷ entry 0x0750F010 0x0FF0F0D0 arm_cmac_smmul core_data_mac
    ∷ entry 0x0700F010 0x0FF0F0D0 arm_cmac_smuad core_data_mac
    ∷ entry 0x0700F050 0x0FF0F0D0 arm_cmac_smusd core_data_mac
    ∷ entry 0x0EB20A40 0x0FBE0E50 arm_fp_vcvt_f3216 fp
    ∷ entry 0x01A00000 0x0FE00FF0 arm_mux_lsl_i_mov mux
    ∷ entry 0x01200000 0x0FF302F0 arm_mux_msr_r_pr mux
    ∷ entry 0x01A00060 0x0FE00FF0 arm_mux_ror_i_rrx mux
    ∷ entry 0xF2800A10 0xFE800FD0 arm_mux_vshll_i_vmovl mux
    ∷ entry 0xF3000E10 0xFFA00F10 arm_vcmp_vacge v_comp
    ∷ entry 0xF3200E10 0xFFA00F10 arm_vcmp_vacgt v_comp
    ∷ entry 0xF2000E00 0xFFA00F10 arm_vcmp_vceq v_comp
    ∷ entry 0xF3000E00 0xFFA00F10 arm_vcmp_vcge v_comp
    ∷ entry 0xF3200E00 0xFFA00F10 arm_vcmp_vcgt_dt v_comp
    ∷ entry 0xF2000D10 0xFFA00F10 arm_vmac_vmla_f v_mac
    ∷ entry 0xF2200D10 0xFFA00F10 arm_vmac_vmls_f v_mac
    ∷ entry 0xF3000D10 0xFFA00F10 arm_vmac_vmul_f v_mac
    ∷ entry 0xF2800900 0xFF800F50 arm_vmac_vqdmlal_dt v_mac
    ∷ entry 0xF2800340 0xFF800F50 arm_vmac_vqdmlal_dtx v_mac
    ∷ entry 0xF2800B00 0xFF800F50 arm_vmac_vqdmlsl_dt v_mac
    ∷ entry 0xF2800740 0xFF800F50 arm_vmac_vqdmlsl_dtx v_mac
    ∷ entry 0xF2800D00 0xFF800F50 arm_vmac_vqdmull_dt v_mac
    ∷ entry 0xF2800B40 0xFF800F50 arm_vmac_vqdmull_dtx v_mac
    ∷ entry 0xF3200D00 0xFFA00F10 arm_vmisc_vabd_f v_misc
    ∷ entry 0xF2000F00 0xFFA00F10 arm_vmisc_vmax_f v_misc
    ∷ entry 0xF2200F00 0xFFA00F10 arm_vmisc_vmin_f v_misc
    ∷ entry 0xF3000F00 0xFFA00F10 arm_vmisc_vpmax_f v_misc
    ∷ entry 0xF3200F00 0xFFA00F10 arm_vmisc_vpmin_f v_misc
    ∷ entry 0xF2000F10 0xFFA00F10 arm_vmisc_vrecps_f v_misc
    ∷ entry 0xF2200F10 0xFFA00F10 arm_vmisc_vrsqrts_f v_misc
    ∷ entry 0xF3B00800 0xFFB00C50 arm_vmisc_vtbl v_misc
    ∷ entry 0xF3B00840 0xFFB00C50 arm_vmisc_vtbx v_misc
    ∷ entry 0xF2000D00 0xFFA00F10 arm_vpar_vadd_f v_par
    ∷ entry 0xF2800400 0xFF800F50 arm_vpar_vaddhn_dt v_par
    ∷ entry 0xF3000D00 0xFFA00F10 arm_vpar_vpadd_f v_par
    ∷ entry 0xF3800400 0xFF800F50 arm_vpar_vraddhn_dt v_par
    ∷ entry 0xF3800600 0xFF800F50 arm_vpar_vrsubhn_dt v_par
    ∷ entry 0xF2200D00 0xFFA00F10 arm_vpar_vsub_f v_par
    ∷ entry 0xF2800600 0xFF800F50 arm_vpar_vsubhn_dt v_par
    ∷ entry 0xF4A00C00 0xFFB00F00 arm_vldste_vld1_all vfp_ldst_elem
    ∷ entry 0xF4A00D00 0xFFB00F00 arm_vldste_vld2_all vfp_ldst_elem
    ∷ entry 0xF4A00E00 0xFFB00F00 arm_vldste_vld3_all vfp_ldst_elem
    ∷ entry 0xF4A00F00 0xFFB00F00 arm_vldste_vld4_all vfp_ldst_elem
    ∷ entry 0x0CBD0A00 0x0FBF0F00 arm_vldstx_vpop32 vfp_ldst_ext
    ∷ entry 0x0CBD0B00 0x0FBF0F00 arm_vldstx_vpop64 vfp_ldst_ext
    ∷ entry 0x0D2D0A00 0x0FBF0F00 arm_vldstx_vpush32 vfp_ldst_ext
    ∷ entry 0x0D2D0B00 0x0FBF0F00 arm_vldstx_vpush64 vfp_ldst_ext
    ∷ entry 0x01A0F040 0x0FE0F070 arm_ret_asr_imm core_data_bit
    ∷ entry 0x01A0F020 0x0FE0F070 arm_ret_lsr_imm core_data_bit
    ∷ entry 0x01A0F060 0x0FE0F070 arm_ret_ror_imm core_data_bit
    ∷ entry 0xF51F0000 0xFF3F0000 arm_misc_pld_lbl core_misc
    ∷ entry 0xF1000000 0xFFF10020 arm_cstat_cps core_status
    ∷ entry 0x0EBA0A40 0x0FBA0E50 arm_fp_vcvt_f6432_bc fp
    ∷ entry 0x01A0F000 0x0FE0F070 arm_mux_lsl_i_mov_pc mux
    ∷ []
