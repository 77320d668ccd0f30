-- ===== src/Decode/Misc.antt =====
-- `arm_core_misc` (ARM_decode_table.c): barriers, hints, preloads and SWP.
use rpi_stub.Common.{ℕ, ◌==◌, ◌&&◌, ◌||◌, not, if◌then◌else◌}
use rpi_stub.Instr.Next.{NextAddr, undef_addr, unpred_addr, arm_addr}
use rpi_stub.Instr.Word.{bit, bitrng}
use rpi_stub.Stub.Memory.{Memory, load32}
use rpi_stub.Decode.Extra.{
  Extra, arm_misc_sev, arm_misc_dbg, arm_misc_setend, arm_misc_clrex, arm_misc_dmb, arm_misc_dsb,
  arm_misc_isb, arm_misc_pld_imm, arm_misc_pld_lbl, arm_misc_pli_lbl, arm_misc_pld_r,
  arm_misc_pli_r, arm_misc_swp,
}
use rpi_stub.Decode.Context.{Context, stored, addr_lin}

-- the preloads with a register, where PLD runs on into PLI
unfoldable pub preload_inst : ℕ → NextAddr → NextAddr
unfolding bitrng
preload_inst instr retval = if bitrng instr 3 0 == 15 then unpred_addr addr_lin else retval

unfoldable pub preload_data : ℕ → NextAddr
unfolding bit bitrng preload_inst
preload_data instr =
    if not (bit instr 22 == 0) && (bitrng instr 19 16 == 15)
    then preload_inst instr (unpred_addr addr_lin)
    else preload_inst instr undef_addr

-- SWP, whose bit 22 is taken for a word
unfoldable pub swap : Context → Memory → ℕ → NextAddr
unfolding bit bitrng stored load32
swap c m instr =
    let rn = bitrng instr 19 16 in
    let rt = bitrng instr 15 12 in
    let rt2 = bitrng instr 3 0 in
    let unp = (rn == 15) || (rt == 15) || (rt2 == 15) || (rn == rt) || (rn == rt2) in
    let address = stored c rn in
    let retval =
      if rt == 15
      then arm_addr (if bit instr 22 == 0 then m address else load32 m address)
      else addr_lin in
    if unp then unpred_addr retval else retval

-- `arm_core_misc`
unfoldable pub arm_core_misc : Context → Memory → ℕ → Extra → NextAddr
unfolding preload_data preload_inst swap
arm_core_misc c m instr arm_misc_sev = addr_lin
arm_core_misc c m instr arm_misc_dbg = addr_lin
arm_core_misc c m instr arm_misc_setend = addr_lin
arm_core_misc c m instr arm_misc_clrex = addr_lin
arm_core_misc c m instr arm_misc_dmb = addr_lin
arm_core_misc c m instr arm_misc_dsb = addr_lin
arm_core_misc c m instr arm_misc_isb = addr_lin
arm_core_misc c m instr arm_misc_pld_imm = addr_lin
arm_core_misc c m instr arm_misc_pld_lbl = addr_lin
arm_core_misc c m instr arm_misc_pli_lbl = addr_lin
arm_core_misc c m instr arm_misc_pld_r = preload_data instr
arm_core_misc c m instr arm_misc_pli_r = preload_inst instr undef_addr
arm_core_misc c m instr arm_misc_swp = swap c m instr
arm_core_misc c m instr _ = undef_addr
