-- ===== src/Decode/Extra.antt =====
-- The names of the instruction encodings (ARM_decode_table_extras.h, and the names that
-- ARM_decode_table.c adds for the encodings that share a row) and of the decoding functions
-- (ARM_decode_table_prototypes.h).

-- `ARM_decode_extra_t`
pub data Extra : Type 0 where
  arm_bra_blx_lbl : Extra
  arm_bra_bx_r : Extra
  arm_bra_bxj_r : Extra
  arm_bra_blx_r : Extra
  arm_bra_b_lbl : Extra
  arm_bra_bl_lbl : Extra
  arm_cop_mcrr2 : Extra
  arm_cop_mrrc2 : Extra
  arm_cop_stc2 : Extra
  arm_cop_ldc2_pc : Extra
  arm_cop_ldc2 : Extra
  arm_cop_mcr2 : Extra
  arm_cop_mrc2 : Extra
  arm_cop_cdp2 : Extra
  arm_cop_mcrr : Extra
  arm_cop_mrrc : Extra
  arm_cop_stc : Extra
  arm_cop_ldc_pc : Extra
  arm_cop_ldc : Extra
  arm_cop_cdp : Extra
  arm_cop_mcr : Extra
  arm_cop_mrc : Extra
  arm_div_sdiv : Extra
  arm_div_udiv : Extra
  arm_cmac_mul : Extra
  arm_cmac_mla : Extra
  arm_cmac_umaal : Extra
  arm_cmac_mls : Extra
  arm_cmac_umull : Extra
  arm_cmac_umlal : Extra
  arm_cmac_smull : Extra
  arm_cmac_smlal : Extra
  arm_cmac_smla : Extra
  arm_cmac_smulw : Extra
  arm_cmac_smlaw : Extra
  arm_cmac_smlal16 : Extra
  arm_cmac_smul : Extra
  arm_cmac_smuad : Extra
  arm_cmac_smusd : Extra
  arm_cmac_smlad : Extra
  arm_cmac_smlsd : Extra
  arm_cmac_smlald : Extra
  arm_cmac_smlsld : Extra
  arm_cmac_smmul : Extra
  arm_cmac_smmla : Extra
  arm_cmac_smmls : Extra
  arm_cmisc_clz : Extra
  arm_cmisc_movw : Extra
  arm_cmisc_movt : Extra
  arm_cmisc_sel : Extra
  arm_cmisc_rev : Extra
  arm_cmisc_rev16 : Extra
  arm_cmisc_rbit : Extra
  arm_cmisc_revsh : Extra
  arm_cmisc_usad8 : Extra
  arm_cmisc_usada8 : Extra
  arm_cmisc_sbfx : Extra
  arm_cmisc_bfc : Extra
  arm_cmisc_bfi : Extra
  arm_cmisc_ubfx : Extra
  arm_pack_sxtb16 : Extra
  arm_pack_pkh : Extra
  arm_pack_sxtab16 : Extra
  arm_pack_sxtb : Extra
  arm_pack_sxtab : Extra
  arm_pack_sxth : Extra
  arm_pack_sxtah : Extra
  arm_pack_uxtb16 : Extra
  arm_pack_uxtab16 : Extra
  arm_pack_uxtb : Extra
  arm_pack_uxtab : Extra
  arm_pack_uxth : Extra
  arm_pack_uxtah : Extra
  arm_par_sadd16 : Extra
  arm_par_sasx : Extra
  arm_par_ssax : Extra
  arm_par_ssub16 : Extra
  arm_par_sadd8 : Extra
  arm_par_ssub8 : Extra
  arm_par_qadd16 : Extra
  arm_par_qasx : Extra
  arm_par_qsax : Extra
  arm_par_qsub16 : Extra
  arm_par_qadd8 : Extra
  arm_par_qsub8 : Extra
  arm_par_shadd16 : Extra
  arm_par_shasx : Extra
  arm_par_shsax : Extra
  arm_par_shsub16 : Extra
  arm_par_shadd8 : Extra
  arm_par_shsub8 : Extra
  arm_par_uadd16 : Extra
  arm_par_uasx : Extra
  arm_par_usax : Extra
  arm_par_usub16 : Extra
  arm_par_uadd8 : Extra
  arm_par_usub8 : Extra
  arm_par_uqadd16 : Extra
  arm_par_uqasx : Extra
  arm_par_uqsax : Extra
  arm_par_uqsub16 : Extra
  arm_par_uqadd8 : Extra
  arm_par_uqsub8 : Extra
  arm_par_uhadd16 : Extra
  arm_par_uhasx : Extra
  arm_par_uhsax : Extra
  arm_par_uhsub16 : Extra
  arm_par_uhadd8 : Extra
  arm_par_uhsub8 : Extra
  arm_sat_ssat16 : Extra
  arm_sat_ssat : Extra
  arm_sat_usat16 : Extra
  arm_sat_usat : Extra
  arm_sat_qadd : Extra
  arm_sat_qsub : Extra
  arm_sat_qdadd : Extra
  arm_sat_qdsub : Extra
  arm_cdata_lsl_r : Extra
  arm_cdata_lsr_r : Extra
  arm_cdata_asr_r : Extra
  arm_cdata_ror_r : Extra
  arm_cdata_lsr_imm : Extra
  arm_cdata_asr_imm : Extra
  arm_ret_rrx_pc : Extra
  arm_ret_lsr_imm : Extra
  arm_ret_asr_imm : Extra
  arm_ret_ror_imm : Extra
  arm_cdata_and_rshr : Extra
  arm_cdata_and_r : Extra
  arm_cdata_eor_rshr : Extra
  arm_cdata_eor_r : Extra
  arm_cdata_sub_r_sp : Extra
  arm_cdata_sub_rshr : Extra
  arm_cdata_sub_r : Extra
  arm_cdata_rsb_rshr : Extra
  arm_cdata_rsb_r : Extra
  arm_cdata_add_r_sp : Extra
  arm_cdata_add_rshr : Extra
  arm_cdata_add_r : Extra
  arm_cdata_adc_rshr : Extra
  arm_cdata_adc_r : Extra
  arm_cdata_sbc_rshr : Extra
  arm_cdata_sbc_r : Extra
  arm_cdata_rsc_rshr : Extra
  arm_cdata_rsc_r : Extra
  arm_cdata_tst_rshr : Extra
  arm_cdata_tst_r : Extra
  arm_cdata_teq_rshr : Extra
  arm_cdata_teq_r : Extra
  arm_cdata_cmp_rshr : Extra
  arm_cdata_cmp_r : Extra
  arm_cdata_cmn_rshr : Extra
  arm_cdata_cmn_r : Extra
  arm_cdata_orr_rshr : Extra
  arm_cdata_orr_r : Extra
  arm_cdata_bic_rshr : Extra
  arm_cdata_bic_r : Extra
  arm_cdata_mvn_rshr : Extra
  arm_cdata_mvn_r : Extra
  arm_cdata_and_imm : Extra
  arm_cdata_eor_imm : Extra
  arm_cdata_adr_lblb : Extra
  arm_cdata_sub_imm_sp : Extra
  arm_cdata_sub_imm : Extra
  arm_cdata_rsb_imm : Extra
  arm_cdata_adr_lbla : Extra
  arm_cdata_add_imm_sp : Extra
  arm_cdata_add_imm : Extra
  arm_cdata_adc_imm : Extra
  arm_cdata_sbc_imm : Extra
  arm_cdata_rsc_imm : Extra
  arm_cdata_tst_imm : Extra
  arm_cdata_teq_imm : Extra
  arm_cdata_cmp_imm : Extra
  arm_cdata_cmn_imm : Extra
  arm_cdata_orr_imm : Extra
  arm_cdata_mov_imm : Extra
  arm_cdata_bic_imm : Extra
  arm_cdata_mvn_imm : Extra
  arm_ret_and_r : Extra
  arm_ret_eor_r : Extra
  arm_ret_sub_r : Extra
  arm_ret_rsb_r : Extra
  arm_ret_add_r : Extra
  arm_ret_adc_r : Extra
  arm_ret_sbc_r : Extra
  arm_ret_rsc_r : Extra
  arm_ret_orr_r : Extra
  arm_ret_bic_r : Extra
  arm_ret_mvn_r : Extra
  arm_ret_eor_imm : Extra
  arm_ret_sub_imm : Extra
  arm_ret_rsb_imm : Extra
  arm_ret_add_imm : Extra
  arm_ret_adc_imm : Extra
  arm_ret_sbc_imm : Extra
  arm_ret_rsc_imm : Extra
  arm_ret_mov_imm : Extra
  arm_ret_bic_imm : Extra
  arm_ret_mvn_imm : Extra
  arm_exc_udf : Extra
  arm_exc_rfe : Extra
  arm_exc_srs : Extra
  arm_exc_bkpt : Extra
  arm_exc_hvc : Extra
  arm_exc_eret : Extra
  arm_exc_smc : Extra
  arm_exc_svc : Extra
  arm_sync_strex : Extra
  arm_sync_ldrex : Extra
  arm_sync_strexd : Extra
  arm_sync_ldrexd : Extra
  arm_sync_strexb : Extra
  arm_sync_ldrexb : Extra
  arm_sync_strexh : Extra
  arm_sync_ldrexh : Extra
  arm_cldstx_strh_r : Extra
  arm_cldstx_ldrd_r : Extra
  arm_cldstx_strd_r : Extra
  arm_cldstx_ldrh_r : Extra
  arm_cldstx_ldrsb_r : Extra
  arm_cldstx_ldrsh_r : Extra
  arm_cldstx_strh_imm : Extra
  arm_cldstx_ldrd_imm : Extra
  arm_cldstx_strd_imm : Extra
  arm_cldstx_ldrh_lbl : Extra
  arm_cldstx_ldrsb_lbl : Extra
  arm_cldstx_ldrsh_lbl : Extra
  arm_cldstx_ldrh_imm : Extra
  arm_cldstx_ldrsb_imm : Extra
  arm_cldstx_ldrsh_imm : Extra
  arm_cldst_str_imm : Extra
  arm_cldst_ldr_lbl : Extra
  arm_cldst_ldr_imm : Extra
  arm_cldst_strb_imm : Extra
  arm_cldst_ldrb_lbl : Extra
  arm_cldst_ldrb_imm : Extra
  arm_cldst_str_r : Extra
  arm_cldst_ldr_r : Extra
  arm_cldst_strb_r : Extra
  arm_cldst_ldrb_r : Extra
  arm_cldstx_ldrd_lbl : Extra
  arm_cldstx_strht_r : Extra
  arm_cldstx_ldrht_r : Extra
  arm_cldstx_ldrsbt_r : Extra
  arm_cldstx_ldrsht_r : Extra
  arm_cldstx_strht_imm : Extra
  arm_cldstx_ldrht_imm : Extra
  arm_cldstx_ldrsbt_imm : Extra
  arm_cldstx_ldrsht_imm : Extra
  arm_cldst_strt_imm : Extra
  arm_cldst_ldrt_imm : Extra
  arm_cldst_strbt_imm : Extra
  arm_cldst_ldrbt_imm : Extra
  arm_cldst_strt_r : Extra
  arm_cldst_ldrt_r : Extra
  arm_cldst_strbt_r : Extra
  arm_cldst_ldrbt_r : Extra
  arm_cldstm_stmda : Extra
  arm_cldstm_stm : Extra
  arm_cldstm_push : Extra
  arm_cldstm_stmdb : Extra
  arm_cldstm_stmib : Extra
  arm_cldstm_dlmda : Extra
  arm_cldstm_pop : Extra
  arm_cldstm_ldm : Extra
  arm_cldstm_ldmdb : Extra
  arm_cldstm_ldmib : Extra
  arm_cldstm_ldm_pc : Extra
  arm_cldstm_pop_r : Extra
  arm_cldstm_push_r : Extra
  arm_cldstm_stm_usr : Extra
  arm_cldstm_ldm_usr : Extra
  arm_misc_setend : Extra
  arm_misc_pli_lbl : Extra
  arm_misc_clrex : Extra
  arm_misc_dsb : Extra
  arm_misc_dmb : Extra
  arm_misc_isb : Extra
  arm_misc_pld_lbl : Extra
  arm_misc_pld_imm : Extra
  arm_misc_pli_r : Extra
  arm_misc_pld_r : Extra
  arm_misc_swp : Extra
  arm_misc_sev : Extra
  arm_misc_dbg : Extra
  arm_cstat_mrs_b : Extra
  arm_cstat_msr_b : Extra
  arm_cstat_cps : Extra
  arm_fp_vdiv : Extra
  arm_fp_vfnm : Extra
  arm_fp_vcvt_f3216 : Extra
  arm_fp_vcmp_r : Extra
  arm_fp_vcmp_z : Extra
  arm_fp_vcvt_f6432 : Extra
  arm_fp_vcvt_f6432_bc : Extra
  arm_fp_vcvt_sf6432 : Extra
  arm_mux_vbic_vmvn : Extra
  arm_mux_wfe_wfi : Extra
  arm_mux_vshrn_q_imm : Extra
  arm_mux_vrshrn_q_imm : Extra
  arm_mux_vshll_i_vmovl : Extra
  arm_mux_vorr_i_vmov_i : Extra
  arm_mux_lsl_i_mov : Extra
  arm_mux_ror_i_rrx : Extra
  arm_mux_lsl_i_mov_pc : Extra
  arm_mux_vmovn_q : Extra
  arm_mux_msr_r_pr : Extra
  arm_mux_mrs_r_pr : Extra
  arm_mux_msr_i_pr_hints : Extra
  arm_mux_vorr_vmov_nm : Extra
  arm_mux_vst_type : Extra
  arm_mux_vld_type : Extra
  arm_vbits_vmov_6432_r : Extra
  arm_vbits_vmov_6432_i : Extra
  arm_vbits_vmvn : Extra
  arm_vbits_vand : Extra
  arm_vbits_vbic : Extra
  arm_vbits_vorn : Extra
  arm_vbits_veor : Extra
  arm_vbits_vbsl : Extra
  arm_vbits_vbit : Extra
  arm_vbits_vbif : Extra
  arm_vcmp_vcgt : Extra
  arm_vcmp_vcgt_z : Extra
  arm_vcmp_vcge_z : Extra
  arm_vcmp_vceq_z : Extra
  arm_vcmp_vcle_z : Extra
  arm_vcmp_vclt_z : Extra
  arm_vcmp_vceq : Extra
  arm_vcmp_vcge : Extra
  arm_vcmp_vcgt_dt : Extra
  arm_vcmp_vcge_dt : Extra
  arm_vcmp_vtst : Extra
  arm_vcmp_vceq_dt : Extra
  arm_vcmp_vacge : Extra
  arm_vcmp_vacgt : Extra
  arm_vmac_vmla_f : Extra
  arm_vmac_vmls_f : Extra
  arm_vmac_vmul_f : Extra
  arm_vmac_vnmlas_f64 : Extra
  arm_vmac_vmul_f64 : Extra
  arm_vmac_vnmul_f64 : Extra
  arm_vmac_vfm_f64 : Extra
  arm_vmac_vmla_dtx : Extra
  arm_vmac_vmlal_dtx : Extra
  arm_vmac_vqdmlal_dtx : Extra
  arm_vmac_vmls_dtx : Extra
  arm_vmac_vmlsl_dtx : Extra
  arm_vmac_vqdmlsl_dtx : Extra
  arm_vmac_vmlal_dt : Extra
  arm_vmac_vqdmlal_dt : Extra
  arm_vmac_vmla_dt : Extra
  arm_vmac_vmls_dt : Extra
  arm_vmac_vmul_dtx : Extra
  arm_vmac_vmull_dtx : Extra
  arm_vmac_vmlsl_dt : Extra
  arm_vmac_vqdmulh_dt : Extra
  arm_vmac_vqdmull_dtx : Extra
  arm_vmac_vqdmlsl_dt : Extra
  arm_vmac_vqrdmulh_dt : Extra
  arm_vmac_vqdmulh_dtx : Extra
  arm_vmac_vqdmull_dt : Extra
  arm_vmac_vqrdmulh_dtx : Extra
  arm_vmac_vmull_dt : Extra
  arm_vmac_vmul_dt : Extra
  arm_vmac_vfm : Extra
  arm_vmac_vmla_f64 : Extra
  arm_vmac_vmls_f64 : Extra
  arm_vmisc_vabs_dt : Extra
  arm_vmisc_vneg_dt : Extra
  arm_vmisc_vneg_f64 : Extra
  arm_vmisc_vsqrt_f64 : Extra
  arm_vmisc_vswp : Extra
  arm_vmisc_vtrn : Extra
  arm_vmisc_vuzp : Extra
  arm_vmisc_vzip : Extra
  arm_vmisc_vrev : Extra
  arm_vmisc_vcls_dt : Extra
  arm_vmisc_vclz_dt : Extra
  arm_vmisc_vcnt : Extra
  arm_vmisc_vabal_dt : Extra
  arm_vmisc_vrecpe_dt : Extra
  arm_vmisc_vrsqrte_dt : Extra
  arm_vmisc_vmax_dt : Extra
  arm_vmisc_vqabs_dt : Extra
  arm_vmisc_vqneg_dt : Extra
  arm_vmisc_vabd_dt : Extra
  arm_vmisc_vabdl_dt : Extra
  arm_vmisc_vcvt_f3216 : Extra
  arm_vmisc_vcvt_tdtm : Extra
  arm_vmisc_vpmax_dt : Extra
  arm_vmisc_vtbl : Extra
  arm_vmisc_vtbx : Extra
  arm_vmisc_vdup_x : Extra
  arm_vmisc_vabd_f : Extra
  arm_vmisc_vmax_f : Extra
  arm_vmisc_vmin_f : Extra
  arm_vmisc_vpmax_f : Extra
  arm_vmisc_vpmin_f : Extra
  arm_vmisc_vext_imm : Extra
  arm_vmisc_vmin_dt : Extra
  arm_vmisc_vaba_dt : Extra
  arm_vmisc_vpmin_dt : Extra
  arm_vmisc_vrecps_f : Extra
  arm_vmisc_vrsqrts_f : Extra
  arm_vmisc_vcvt_tdtmb : Extra
  arm_vmisc_vabs_f64 : Extra
  arm_vpar_vadd_f : Extra
  arm_vpar_vsub_f : Extra
  arm_vpar_vsub_f64 : Extra
  arm_vpar_vhadd : Extra
  arm_vpar_vrhadd : Extra
  arm_vpar_vadd_lw_dt : Extra
  arm_vpar_vpaddl_dt : Extra
  arm_vpar_vhsub : Extra
  arm_vpar_vsubl_dt : Extra
  arm_vpar_vaddhn_dt : Extra
  arm_vpar_vraddhn_dt : Extra
  arm_vpar_vsubhn_dt : Extra
  arm_vpar_vpadal_dt : Extra
  arm_vpar_vrsubhn_dt : Extra
  arm_vpar_vadd_dt : Extra
  arm_vpar_vsub_dt : Extra
  arm_vpar_vpadd_f : Extra
  arm_vpar_vqadd_dt : Extra
  arm_vpar_vqsub_dt : Extra
  arm_vpar_vpadd_dt : Extra
  arm_vpar_vadd_f64 : Extra
  arm_vsh_vshll_imm : Extra
  arm_vsh_vshl_dt : Extra
  arm_vsh_vrshl_dt : Extra
  arm_vsh_vsra_dt_imm : Extra
  arm_vsh_vrshr_dt_imm : Extra
  arm_vsh_vrsra_dt_imm : Extra
  arm_vsh_vsri_imm : Extra
  arm_vsh_vqshl_dt : Extra
  arm_vsh_vshl_imm : Extra
  arm_vsh_vsli_imm : Extra
  arm_vsh_vqrshl_dt : Extra
  arm_vsh_vqshl_dt_imm : Extra
  arm_vldste_vld1_all : Extra
  arm_vldste_vld2_all : Extra
  arm_vldste_vld3_all : Extra
  arm_vldste_vld4_all : Extra
  arm_vldste_vst1_one : Extra
  arm_vldste_vst2_one : Extra
  arm_vldste_vst3_one : Extra
  arm_vldste_vst4_one : Extra
  arm_vldste_vld1_one : Extra
  arm_vldste_vld2_one : Extra
  arm_vldste_vld3_one : Extra
  arm_vldste_vld4_one : Extra
  arm_vldstx_vstr_s_imm : Extra
  arm_vldstx_vstr_d_imm : Extra
  arm_vldstx_vldr_s_imm : Extra
  arm_vldstx_vldr_d_imm : Extra
  arm_vldstx_vstm32 : Extra
  arm_vldstx_vstm64 : Extra
  arm_vldstx_vldm32 : Extra
  arm_vldstx_vldm64 : Extra
  arm_vldstx_vpop32 : Extra
  arm_vldstx_vpop64 : Extra
  arm_vldstx_vpush32 : Extra
  arm_vldstx_vpush64 : Extra
  arm_vfpxfer_vmsr_r : Extra
  arm_vfpxfer_vmrs_r : Extra
  arm_vfpxfer_vmov_ss : Extra
  arm_vfpxfer_vmov_d : Extra
  arm_vfpxfer_vmov_s : Extra
  arm_vfpxfer_vmov_dx : Extra
  arm_vfpxfer_vmsr_fpscr : Extra
  arm_vfpxfer_vmrs_fpscr : Extra
  arm_vfpxfer_vdup : Extra
  arm_vfpxfer_vmov_dt_dx : Extra
  arm_cdata_mov_r : Extra
  arm_cdata_lsl_imm : Extra
  arm_ret_mov_pc : Extra
  arm_ret_lsl_imm : Extra
  arm_cdata_rrx_r : Extra
  arm_cdata_ror_imm : Extra
  arm_vldste_vld1_mult : Extra
  arm_vldste_vld2_mult : Extra
  arm_vldste_vld3_mult : Extra
  arm_vldste_vld4_mult : Extra
  arm_vldste_vst1_mult : Extra
  arm_vldste_vst2_mult : Extra
  arm_vldste_vst3_mult : Extra
  arm_vldste_vst4_mult : Extra
  arm_extras_last : Extra

-- the functions `arm_branch` and so on that `decoder` of a row points to
pub data Decoder : Type 0 where
  branch : Decoder
  coproc : Decoder
  core_data_bit : Decoder
  core_data_div : Decoder
  core_data_mac : Decoder
  core_data_macd : Decoder
  core_data_misc : Decoder
  core_data_pack : Decoder
  core_data_par : Decoder
  core_data_sat : Decoder
  core_data_std_i : Decoder
  core_data_std_r : Decoder
  core_data_std_sh : Decoder
  core_exc : Decoder
  core_ldst : Decoder
  core_ldstm : Decoder
  core_ldstrd : Decoder
  core_ldstrex : Decoder
  core_ldstrh : Decoder
  core_ldstrsb : Decoder
  core_ldstsh : Decoder
  core_misc : Decoder
  core_status : Decoder
  fp : Decoder
  mux : Decoder
  v_bits : Decoder
  v_comp : Decoder
  v_mac : Decoder
  v_misc : Decoder
  v_par : Decoder
  v_shift : Decoder
  vfp_ldst_elem : Decoder
  vfp_ldst_ext : Decoder
  vfp_xfer_reg : Decoder
