-- ===== src/Decode/LoadMultiple.antt =====
-- `arm_core_ldstm` (ARM_decode_table.c): LDM, STM, PUSH and POP.
pub mod Slot
pub mod Pop
use rpi_stub.Common.{
  ℕ, zero, suc, ◌+◌, ◌-◌, ◌*◌, ◌%◌, ◌^◌, Bool, ◌==◌, ◌&&◌, ◌||◌, not, ltb, if◌then◌else◌, bit_and,
}
use rpi_stub.Instr.Next.{NextAddr, undef_addr, unpred_addr, arm_addr, thumb_addr}
use rpi_stub.Instr.Word.{bit, bitrng}
use rpi_stub.Stub.Memory.{Memory, load32}
use rpi_stub.Decode.Extra.{Extra, arm_cldstm_pop_r, arm_cldstm_push_r}
use rpi_stub.Decode.Context.{Context, stored, reg_r15, reg_cpsr, reg_spsr, addr_lin}
use rpi_stub.Decode.Int32.{add32, sub32}
use rpi_stub.Decode.Return.{jump}

-- the loop that counts the registers of the list
unfoldable pub count_loop : ℕ → ℕ → ℕ → ℕ → ℕ
count_loop zero instr tmp3 tmp4 = tmp4
count_loop (suc n) instr tmp3 tmp4 =
    count_loop n instr (tmp3 + 1) (if bit_and instr (2 ^ tmp3) == 0 then tmp4 else tmp4 + 1)

unfoldable pub register_count : ℕ → ℕ
unfolding count_loop
register_count instr = count_loop 16 instr 0 0

-- `check_proc_mode(INSTR_PMODE_USR, INSTR_PMODE_SYS, 0, 0)` and of `INSTR_PMODE_HYP` (instr_comm.c)
abbrev pub proc_mode : Context → ℕ
proc_mode c = bit_and (reg_cpsr c) 0x1f

unfoldable pub is_usr_or_sys : Context → Bool
unfolding stored
is_usr_or_sys c = (proc_mode c == 0x10) || (proc_mode c == 0x1f)

unfoldable pub is_hyp : Context → Bool
unfolding stored
is_hyp c = proc_mode c == 0x1a

-- what the mode allows, behind the tests of the registers
unfoldable pub mode_checked : Context → NextAddr → NextAddr
unfolding is_usr_or_sys is_hyp
mode_checked c retval =
    if is_hyp c then undef_addr else if is_usr_or_sys c then unpred_addr retval else retval

unfoldable pub unpred_if : Bool → NextAddr → NextAddr
unpred_if test retval = if test then unpred_addr retval else retval

-- the cases of one register, pop and push
unfoldable pub pop_one : Context → Memory → ℕ → NextAddr
unfolding bitrng stored load32
pop_one c m instr =
    if bitrng instr 15 12 == 15
    then arm_addr (load32 m (stored c 13))
    else if bitrng instr 15 12 == 13
    then unpred_addr addr_lin
    else addr_lin

unfoldable pub push_one : ℕ → NextAddr
unfolding bitrng
push_one instr = if bitrng instr 15 12 == 13 then unpred_addr addr_lin else addr_lin

-- the new base, where that is the PC
unfoldable pub new_base : Context → ℕ → NextAddr
unfolding bit add32 sub32 register_count stored
new_base c instr =
    let bytes = 4 * register_count instr in
    if bit instr 23 == 0
    then arm_addr (sub32 (reg_r15 c) bytes)
    else arm_addr (add32 (reg_r15 c) bytes)

-- STM, and LDM of the user's registers
unfoldable pub store_case : Context → ℕ → NextAddr
unfolding bit bitrng register_count new_base unpred_if mode_checked
store_case c instr =
    let base = bitrng instr 19 16 in
    let result = if (base == 15) && not (bit instr 21 == 0) then new_base c instr else addr_lin in
    let stack = (base == 13) && (not (bit instr 13 == 0) || ltb (register_count instr) 2) in
    let checked = unpred_if stack (unpred_if (base == 15) result) in
    if bit instr 22 == 0 then checked else mode_checked c checked

-- where the word for the PC is read
unfoldable pub pc_slot : Context → ℕ → ℕ
unfolding bitrng stored register_count add32 sub32
pc_slot c instr =
    let base = stored c (bitrng instr 19 16) in
    let n = register_count instr in
    let way = bitrng instr 24 23 in
    if way == 0
    then sub32 base (4 * (n - 1))
    else if way == 1
    then add32 base (4 * (n - 1))
    else if way == 2
    then sub32 base (4 * n)
    else add32 base (4 * n)

-- the return from an exception: the test before it always holds here, where the L-bit is set
unfoldable pub by_spsr : Context → NextAddr → NextAddr
unfolding bit stored
by_spsr c retval =
    if bit (reg_spsr c) 5 == 0
    then arm_addr (bit_and retval.address 0xfffffffc)
    else thumb_addr retval.address

unfoldable pub pop_pc : Context → Memory → ℕ → NextAddr
unfolding bit load32 pc_slot jump by_spsr
pop_pc c m instr =
    let retval = jump (load32 m (pc_slot c instr)) in
    if (bit instr 20 == 0) && (bit instr 22 == 0) then retval else by_spsr c retval

-- `tmp1` behind that: the SPSR where it was read, else the number of the base register
unfoldable pub tested : Context → ℕ → ℕ
unfolding bit bitrng stored
tested c instr =
    let base = bitrng instr 19 16 in
    if (base == 15) && not (bit instr 21 == 0)
    then base
    else if bit instr 15 == 0
    then base
    else if (bit instr 20 == 0) && (bit instr 22 == 0)
    then base
    else reg_spsr c

-- LDM, with the PC or without
unfoldable pub load_case : Context → Memory → ℕ → NextAddr
unfolding bit bitrng register_count new_base unpred_if mode_checked pop_pc tested
load_case c m instr =
    let base = bitrng instr 19 16 in
    let n = register_count instr in
    let result =
      if (base == 15) && not (bit instr 21 == 0)
      then new_base c instr
      else if bit instr 15 == 0
      then addr_lin
      else pop_pc c m instr in
    let t = tested c instr in
    let stack = (t == 13) && (not (bit instr 13 == 0) || ltb n 2) in
    let checked = unpred_if (stack || ltb n 1) (unpred_if (t == 15) result) in
    if not (bit instr 22 == 0) && not (bit instr 15 == 0) then mode_checked c checked else checked

-- STM or LDM of the user's registers, or LDM
unfoldable pub multiple : Context → Memory → ℕ → NextAddr
unfolding bit store_case load_case
multiple c m instr =
    if (bit instr 20 == 0) || not (bit instr 22 == 0) && (bit instr 15 == 0)
    then store_case c instr
    else load_case c m instr

-- `arm_core_ldstm`
unfoldable pub arm_core_ldstm : Context → Memory → ℕ → Extra → NextAddr
unfolding pop_one push_one multiple
arm_core_ldstm c m instr arm_cldstm_pop_r = pop_one c m instr
arm_core_ldstm c m instr arm_cldstm_push_r = push_one instr
arm_core_ldstm c m instr _ = multiple c m instr
