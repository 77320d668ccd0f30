-- ===== src/Decode/Mux.antt =====
-- `arm_mux` (ARM_decode_table.c): the instructions that share a row of the table. `uninit` is passed
-- on to `arm_core_data_bit`, and `elem` stands for `arm_vfp_ldst_elem`.
use rpi_stub.Common.{ℕ, ◌==◌, ◌&&◌, ◌||◌, not, leb, if◌then◌else◌, bit_and}
use rpi_stub.Instr.Next.{NextAddr, undef_addr, unpred_addr, arm_addr, addr_arm}
use rpi_stub.Instr.Word.{bit, bitrng}
use rpi_stub.Instr.Condition.{will_branch}
use rpi_stub.Decode.Extra.{
  Extra, arm_mux_vbic_vmvn, arm_mux_wfe_wfi, arm_mux_vshrn_q_imm, arm_mux_vrshrn_q_imm,
  arm_mux_vshll_i_vmovl, arm_mux_vorr_i_vmov_i, arm_mux_lsl_i_mov, arm_mux_lsl_i_mov_pc,
  arm_mux_ror_i_rrx, arm_mux_vmovn_q, arm_mux_msr_r_pr, arm_mux_mrs_r_pr, arm_mux_msr_i_pr_hints,
  arm_mux_vorr_vmov_nm, arm_mux_vst_type, arm_mux_vld_type, arm_cdata_mov_r, arm_cdata_lsl_imm,
  arm_ret_mov_pc, arm_ret_lsl_imm, arm_cdata_rrx_r, arm_cdata_ror_imm, arm_vldste_vld1_mult,
  arm_vldste_vld2_mult, arm_vldste_vld3_mult, arm_vldste_vld4_mult, arm_vldste_vst1_mult,
  arm_vldste_vst2_mult, arm_vldste_vst3_mult, arm_vldste_vst4_mult,
}
use rpi_stub.Decode.Context.{Context, stored, reg_cpsr, reg_spsr, addr_lin}
use rpi_stub.Decode.DataBit.{arm_core_data_bit}

-- the vector instructions
unfoldable pub vbic_vmvn : ℕ → NextAddr
unfolding bitrng
vbic_vmvn instr = if bitrng instr 11 9 == 7 then undef_addr else addr_lin

-- both comparisons are with the same number
unfoldable pub wfe_wfi : ℕ → NextAddr
unfolding bitrng
wfe_wfi instr = if (bitrng instr 7 0 == 2) || (bitrng instr 7 0 == 2) then addr_lin else undef_addr

unfoldable pub even_vm : ℕ → NextAddr
unfolding bit
even_vm instr = if bit instr 0 == 0 then addr_lin else undef_addr

unfoldable pub vshll_vmovl : ℕ → NextAddr
unfolding bit bitrng
vshll_vmovl instr =
    if bit instr 12 == 0
    then if bitrng instr 21 19 == 0 then undef_addr else addr_lin
    else undef_addr

unfoldable pub vorr_vmov_imm : ℕ → NextAddr
unfolding bit bitrng
vorr_vmov_imm instr =
    if (bit instr 6 == 1) && (bit instr 12 == 0)
    then if (bit instr 7 == 0) && (bitrng instr 21 19 == 0)
      then if (bit instr 5 == 0) && (bit instr 8 == 1) && not (bitrng instr 11 10 == 3)
        then addr_lin
        else if (bit instr 8 == 0) || (bitrng instr 11 10 == 3)
        then addr_lin
        else undef_addr
      else if (bit instr 6 == 1) && (bit instr 0 == 0)
      then addr_lin
      else undef_addr
    else undef_addr

unfoldable pub vmovn : ℕ → NextAddr
unfolding bit bitrng
vmovn instr = if not (bitrng instr 19 18 == 3) && (bit instr 0 == 0) then addr_lin else undef_addr

unfoldable pub vorr_vmov_reg : ℕ → NextAddr
unfolding bit
vorr_vmov_reg instr =
    if (bit instr 16 == 0) && (bit instr 12 == 0) && (bit instr 0 == 0)
    then addr_lin
    else undef_addr

-- the choices of `arm_mux_lsl_i_mov`, `arm_mux_lsl_i_mov_pc` and `arm_mux_ror_i_rrx`
unfoldable pub lsl_or_mov : ℕ → Extra
unfolding bitrng
lsl_or_mov instr = if bitrng instr 11 7 == 0 then arm_cdata_mov_r else arm_cdata_lsl_imm

unfoldable pub lsl_or_mov_pc : ℕ → Extra
unfolding bit bitrng
lsl_or_mov_pc instr =
    if bitrng instr 11 7 == 0
    then if bit instr 20 == 1 then arm_ret_mov_pc else arm_cdata_mov_r
    else if bit instr 20 == 1
    then arm_ret_lsl_imm
    else arm_cdata_lsl_imm

unfoldable pub ror_or_rrx : ℕ → Extra
unfolding bitrng
ror_or_rrx instr = if bitrng instr 11 7 == 0 then arm_cdata_rrx_r else arm_cdata_ror_imm

-- the mode, and the modes that a register names
abbrev pub cpu_mode : Context → ℕ
cpu_mode c = bitrng (reg_cpsr c) 4 0

unfoldable pub msr_reg : Context → ℕ → NextAddr
unfolding bit bitrng stored
msr_reg c instr =
    let rn = bitrng instr 3 0 in
    let to_be = bit_and (stored c rn) 0x1f in
    if cpu_mode c == 16
    then if bit instr 22 == 1
      then unpred_addr addr_lin
      else if bitrng instr 19 18 == 0
      then unpred_addr addr_lin
      else if rn == 15
      then unpred_addr addr_lin
      else addr_lin
    else if cpu_mode c == 31
    then if not (to_be == 16) && not (to_be == 31)
      then unpred_addr addr_lin
      else if bitrng instr 19 16 == 0
      then unpred_addr addr_lin
      else if rn == 15
      then unpred_addr addr_lin
      else addr_lin
    else if bitrng instr 19 16 == 0
    then unpred_addr addr_lin
    else if rn == 15
    then unpred_addr addr_lin
    else addr_lin

unfoldable pub mrs_reg : Context → ℕ → NextAddr
unfolding bit bitrng stored
mrs_reg c instr =
    let cpsr_bits = if cpu_mode c == 16 then 0xf80f0000 else 0xf8ff03df in
    let from_cpsr = arm_addr (bit_and (reg_cpsr c) cpsr_bits) in
    let has_spsr = not (cpu_mode c == 16) && not (cpu_mode c == 31) in
    if bitrng instr 11 8 == 15
    then unpred_addr (
        if bit instr 22 == 0
        then from_cpsr
        else if has_spsr
        then arm_addr (reg_spsr c)
        else addr_lin)
    else addr_lin

-- MSR of an immediate: the system mode looks at a register
unfoldable pub msr_imm : Context → ℕ → NextAddr
unfolding bit bitrng stored
msr_imm c instr =
    let to_be = bit_and (stored c (bitrng instr 3 0)) 0x1f in
    if cpu_mode c == 16
    then if bit instr 22 == 1 then unpred_addr addr_lin else addr_lin
    else if cpu_mode c == 31
    then if not (to_be == 16) && not (to_be == 31) || (bit instr 22 == 1)
      then unpred_addr addr_lin
      else addr_lin
    else addr_lin

unfoldable pub hint : ℕ → NextAddr
unfolding bitrng
hint instr =
    if leb (bitrng instr 7 0) 4
    then addr_lin
    else if bit_and (bitrng instr 7 0) 0xf0 == 0xf0
    then addr_lin
    else undef_addr

unfoldable pub msr_or_hint : Context → ℕ → NextAddr
unfolding bitrng msr_imm hint
msr_or_hint c instr = if bitrng instr 19 16 == 0 then hint instr else msr_imm c instr

-- the `switch` over the type of a vector load or store, with what it chooses from
unfoldable pub by_type : (ℕ → Extra → NextAddr) → ℕ → Extra → Extra → Extra → Extra → NextAddr
unfolding bitrng
by_type elem instr one two three four =
    let t = bitrng instr 11 8 in
    if (t == 2) || (t == 6) || (t == 7) || (t == 10)
    then elem instr one
    else if (t == 3) || (t == 8) || (t == 9)
    then elem instr two
    else if (t == 4) || (t == 5)
    then elem instr three
    else if (t == 0) || (t == 1)
    then elem instr four
    else undef_addr

-- the `switch` over the encodings
unfoldable pub mux_case : Context → ℕ → (ℕ → Extra → NextAddr) → ℕ → Extra → NextAddr
unfolding vbic_vmvn wfe_wfi even_vm vshll_vmovl vorr_vmov_imm vmovn vorr_vmov_reg lsl_or_mov
    lsl_or_mov_pc ror_or_rrx msr_reg mrs_reg msr_or_hint by_type arm_core_data_bit
mux_case c uninit elem instr arm_mux_vbic_vmvn = vbic_vmvn instr
mux_case c uninit elem instr arm_mux_wfe_wfi = wfe_wfi instr
mux_case c uninit elem instr arm_mux_vshrn_q_imm = even_vm instr
mux_case c uninit elem instr arm_mux_vrshrn_q_imm = even_vm instr
mux_case c uninit elem instr arm_mux_vshll_i_vmovl = vshll_vmovl instr
mux_case c uninit elem instr arm_mux_vorr_i_vmov_i = vorr_vmov_imm instr
mux_case c uninit elem instr arm_mux_lsl_i_mov = arm_core_data_bit c uninit instr (lsl_or_mov instr)
mux_case c uninit elem instr arm_mux_lsl_i_mov_pc =
    arm_core_data_bit c uninit instr (lsl_or_mov_pc instr)
mux_case c uninit elem instr arm_mux_ror_i_rrx = arm_core_data_bit c uninit instr (ror_or_rrx instr)
mux_case c uninit elem instr arm_mux_vmovn_q = vmovn instr
mux_case c uninit elem instr arm_mux_msr_r_pr = msr_reg c instr
mux_case c uninit elem instr arm_mux_mrs_r_pr = mrs_reg c instr
mux_case c uninit elem instr arm_mux_msr_i_pr_hints = msr_or_hint c instr
mux_case c uninit elem instr arm_mux_vorr_vmov_nm = vorr_vmov_reg instr
mux_case c uninit elem instr arm_mux_vst_type =
    by_type elem instr arm_vldste_vst1_mult arm_vldste_vst2_mult arm_vldste_vst3_mult
      arm_vldste_vst4_mult
mux_case c uninit elem instr arm_mux_vld_type =
    by_type elem instr arm_vldste_vld1_mult arm_vldste_vld2_mult arm_vldste_vld3_mult
      arm_vldste_vld4_mult
mux_case c uninit elem instr _ = undef_addr

-- the test of the condition, behind the switch
unfoldable pub conditional : ℕ → ℕ → NextAddr → NextAddr
unfolding will_branch
conditional cpsr instr retval =
    if bit_and retval.flag 0xffffffef == addr_arm
    then if will_branch cpsr instr then retval else addr_lin
    else retval

-- `arm_mux`
unfoldable pub arm_mux : Context → ℕ → (ℕ → Extra → NextAddr) → ℕ → Extra → NextAddr
unfolding mux_case conditional stored
arm_mux c uninit elem instr extra =
    conditional (reg_cpsr c) instr (mux_case c uninit elem instr extra)
