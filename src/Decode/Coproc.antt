-- ===== src/Decode/Coproc.antt =====
-- `arm_coproc` (ARM_decode_table.c): the instructions of the coprocessors.
use rpi_stub.Common.{ℕ, Bool, ◌==◌, ◌||◌, if◌then◌else◌}
use rpi_stub.Instr.Next.{NextAddr, undef_addr, unpred_addr}
use rpi_stub.Instr.Word.{bitrng}
use rpi_stub.Decode.Extra.{
  Extra, arm_cop_mcrr2, arm_cop_mcrr, arm_cop_mcr2, arm_cop_mcr, arm_cop_ldc2, arm_cop_ldc,
  arm_cop_ldc2_pc, arm_cop_ldc_pc, arm_cop_mrrc2, arm_cop_mrrc, arm_cop_mrc2, arm_cop_mrc,
  arm_cop_stc2, arm_cop_stc, arm_cop_cdp2, arm_cop_cdp,
}
use rpi_stub.Decode.Context.{addr_lin}

-- the reserved coprocessors
unfoldable pub reserved : ℕ → Bool
reserved tmp = (tmp == 8) || (tmp == 9) || (tmp == 12) || (tmp == 13)

-- the cases of MCRR, MCR, and of LDC and STC
unfoldable pub to_pair : ℕ → NextAddr
unfolding bitrng
to_pair instr =
    if (bitrng instr 19 16 == 15) || (bitrng instr 15 12 == 15)
    then unpred_addr addr_lin
    else addr_lin

unfoldable pub to_one : ℕ → NextAddr
unfolding bitrng
to_one instr =
    if bitrng instr 15 12 == 15
    then unpred_addr addr_lin
    else if bitrng instr 15 12 == 13
    then unpred_addr addr_lin
    else addr_lin

unfoldable pub transfer : ℕ → NextAddr
unfolding bitrng
transfer instr = if bitrng instr 24 21 == 0 then undef_addr else unpred_addr addr_lin

-- the `switch`
unfoldable pub coproc_case : ℕ → Extra → NextAddr
unfolding to_pair to_one transfer
coproc_case instr arm_cop_mcrr2 = to_pair instr
coproc_case instr arm_cop_mcrr = to_pair instr
coproc_case instr arm_cop_mcr2 = to_one instr
coproc_case instr arm_cop_mcr = to_one instr
coproc_case instr arm_cop_ldc2 = transfer instr
coproc_case instr arm_cop_ldc = transfer instr
coproc_case instr arm_cop_ldc2_pc = transfer instr
coproc_case instr arm_cop_ldc_pc = transfer instr
coproc_case instr arm_cop_mrrc2 = unpred_addr addr_lin
coproc_case instr arm_cop_mrrc = unpred_addr addr_lin
coproc_case instr arm_cop_mrc2 = unpred_addr addr_lin
coproc_case instr arm_cop_mrc = unpred_addr addr_lin
coproc_case instr arm_cop_stc2 = transfer instr
coproc_case instr arm_cop_stc = transfer instr
coproc_case instr arm_cop_cdp2 = unpred_addr addr_lin
coproc_case instr arm_cop_cdp = unpred_addr addr_lin
coproc_case instr _ = undef_addr

-- `arm_coproc`
unfoldable pub arm_coproc : ℕ → Extra → NextAddr
unfolding coproc_case reserved bitrng
arm_coproc instr extra =
    if reserved (bitrng instr 11 8) then undef_addr else coproc_case instr extra
