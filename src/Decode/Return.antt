-- ===== src/Decode/Return.antt =====
-- Results that go to the PC (ARM_decode_table.c): a jump by the lowest bits of the address, and the
-- return from an exception.
pub mod Leads
use rpi_stub.Common.{ℕ, ◌==◌, ◌||◌, if◌then◌else◌, bit_and}
use rpi_stub.Instr.Next.{NextAddr, undef_addr, unpred_addr, arm_addr, thumb_addr}
use rpi_stub.Instr.Word.{bit}
use rpi_stub.Decode.Context.{Context, stored, reg_cpsr, reg_spsr}

-- the normal jump
unfoldable pub jump : ℕ → NextAddr
jump a =
    if bit_and a 1 == 0
    then if bit_and a 3 == 0 then arm_addr a else unpred_addr (thumb_addr a)
    else thumb_addr a

-- the `switch` over the mode, with what it leaves in the other modes
unfoldable pub by_mode : Context → NextAddr → NextAddr
unfolding stored
by_mode c other =
    let mode = bit_and (reg_cpsr c) 0x1f in
    if (mode == 0x10) || (mode == 0x1f)
    then unpred_addr (arm_addr 0x8)
    else if mode == 0x1a
    then undef_addr
    else other

-- the cases `arm_ret_...` of `arm_core_data_std_r` and `arm_core_data_std_i`
unfoldable pub returned : Context → ℕ → NextAddr → NextAddr
unfolding bit jump by_mode stored
returned c instr retval =
    if bit instr 20 == 0
    then jump retval.address
    else by_mode c (if bit (reg_spsr c) 5 == 0 then retval else thumb_addr retval.address)

-- the cases `arm_ret_...` of `arm_core_data_bit`, where the assignment of the address is a comment
unfoldable pub returned_bit : Context → ℕ → ℕ → NextAddr
unfolding bit jump by_mode stored
returned_bit c instr tmp3 =
    if bit instr 20 == 0
    then jump tmp3
    else by_mode c (if bit (reg_spsr c) 5 == 0 then undef_addr else thumb_addr tmp3)
