-- ===== src/Decode/Exception.antt =====
-- `arm_core_exc` (ARM_decode_table.c): instructions that take an exception or return from one, and
-- the helpers of instr_comm.c that it asks for the mode and the security state.
use rpi_stub.Common.{ℕ, ◌/◌, ◌^◌, Bool, ◌==◌, ◌&&◌, ◌||◌, not, ltb, if◌then◌else◌, bit_and, bit_or}
use rpi_stub.Instr.Next.{NextAddr, undef_addr, unpred_addr, arm_addr}
use rpi_stub.Instr.Word.{bitrng, bits}
use rpi_stub.Stub.Memory.{Memory, load32}
use rpi_stub.Decode.Extra.{
  Extra, arm_exc_eret, arm_exc_bkpt, arm_exc_hvc, arm_exc_smc, arm_exc_svc, arm_exc_udf,
  arm_exc_rfe, arm_exc_srs,
}
use rpi_stub.Decode.Context.{Context, stored, reg_cpsr, addr_lin}
use rpi_stub.Decode.Int32.{add32, sub32}

-- the system registers that are read: ELR_hyp, HCR, SCR and NSACR
pub record SystemRegs : Type 0 where
  pub elr_hyp : ℕ
  pub hcr : ℕ
  pub scr : ℕ
  pub nsacr : ℕ

-- `get_security_state` and `check_coproc_access`
unfoldable pub get_security_state : SystemRegs → Bool
get_security_state s = bit_and s.scr 1 == 0

unfoldable pub check_coproc_access : SystemRegs → ℕ → ℕ
check_coproc_access s coproc =
    if coproc == 15
    then 1
    else if coproc == 16
    then bit_and (s.nsacr / 2 ^ 19) 1
    else if coproc == 14
    then bit_and (s.nsacr / 2 ^ 20) 1
    else if (coproc == 10) || (coproc == 11)
    then bit_or (bit_and (s.nsacr / 2 ^ 10) 0x03) (bit_and (s.nsacr / 2 ^ 12) 0x0c)
    else if (coproc == 13) || (coproc == 12) || ltb coproc 10
    then bit_and (s.nsacr / 2 ^ coproc) 1
    else 0

-- `check_proc_mode` of one mode, as a test
unfoldable pub in_mode : Context → ℕ → Bool
unfolding stored
in_mode c mode = bit_and (reg_cpsr c) 0x1f == mode

abbrev pub mode_usr : ℕ
mode_usr = 0x10

abbrev pub mode_fiq : ℕ
mode_fiq = 0x11

abbrev pub mode_mon : ℕ
mode_mon = 0x16

abbrev pub mode_hyp : ℕ
mode_hyp = 0x1a

abbrev pub mode_sys : ℕ
mode_sys = 0x1f

unfoldable pub eret : SystemRegs → Context → NextAddr
unfolding in_mode stored
eret s c =
    if in_mode c mode_hyp
    then unpred_addr (arm_addr s.elr_hyp)
    else if in_mode c mode_usr || in_mode c mode_sys
    then undef_addr
    else arm_addr (stored c 14)

unfoldable pub hvc : SystemRegs → Context → NextAddr
unfolding get_security_state in_mode
hvc s c =
    if get_security_state s
    then undef_addr
    else if in_mode c mode_usr
    then undef_addr
    else if bit_and s.scr (2 ^ 8) == 0
    then if in_mode c mode_usr then addr_lin else undef_addr
    else addr_lin

unfoldable pub smc : SystemRegs → Context → NextAddr
unfolding get_security_state in_mode
smc s c =
    if in_mode c mode_usr
    then undef_addr
    else if not (bit_and s.hcr (2 ^ 19) == 0) && not (get_security_state s)
    then addr_lin
    else if not (bit_and s.scr (2 ^ 7) == 0)
    then if not (get_security_state s) then undef_addr else addr_lin
    else addr_lin

-- where RFE reads the new PC, by its U- and P-bit
unfoldable pub rfe_slot : ℕ → ℕ → ℕ
unfolding add32 sub32
rfe_slot way rn =
    if way == 0
    then sub32 rn 4
    else if way == 1
    then rn
    else if way == 2
    then sub32 (sub32 rn 4) 8
    else add32 (add32 rn 4) 4

-- The last test compares two constants first, so that only the lowest bit of the CPSR counts.
unfoldable pub rfe : Context → Memory → ℕ → NextAddr
unfolding in_mode stored bitrng bits load32 rfe_slot
rfe c m instr =
    let retval =
      arm_addr (load32 m (rfe_slot (bits instr 0x01800000) (stored c (bitrng instr 19 16)))) in
    if in_mode c mode_hyp
    then undef_addr
    else if in_mode c mode_usr && not (bit_and (reg_cpsr c) 1 == 0)
    then unpred_addr retval
    else retval

unfoldable pub srs : SystemRegs → Context → ℕ → NextAddr
unfolding in_mode bitrng get_security_state check_coproc_access
srs s c instr =
    if in_mode c mode_hyp
    then undef_addr
    else if in_mode c mode_usr || in_mode c mode_sys
    then unpred_addr addr_lin
    else if bitrng instr 4 0 == mode_hyp
    then unpred_addr addr_lin
    else if in_mode c mode_mon && not (get_security_state s)
    then unpred_addr addr_lin
    else if in_mode c mode_fiq && not (check_coproc_access s 16 == 0) && not (get_security_state s)
    then unpred_addr addr_lin
    else addr_lin

-- `arm_core_exc`; SVC is linear in each of its branches
unfoldable pub arm_core_exc : SystemRegs → Context → Memory → ℕ → Extra → NextAddr
unfolding eret hvc smc rfe srs
arm_core_exc s c m instr arm_exc_eret = eret s c
arm_core_exc s c m instr arm_exc_bkpt = addr_lin
arm_core_exc s c m instr arm_exc_hvc = hvc s c
arm_core_exc s c m instr arm_exc_smc = smc s c
arm_core_exc s c m instr arm_exc_svc = addr_lin
arm_core_exc s c m instr arm_exc_udf = undef_addr
arm_core_exc s c m instr arm_exc_rfe = rfe c m instr
arm_core_exc s c m instr arm_exc_srs = srs s c instr
arm_core_exc s c m instr _ = undef_addr
