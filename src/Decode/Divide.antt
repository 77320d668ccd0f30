-- ===== src/Decode/Divide.antt =====
-- `arm_core_data_div` (ARM_decode_table.c): SDIV and UDIV into the PC.
pub mod Round
use rpi_stub.Common.{ℕ, ◌+◌, ◌/◌, ◌||◌, ◌==◌, if◌then◌else◌}
use rpi_stub.Instr.Next.{NextAddr, undef_addr, unpred_addr, arm_addr}
use rpi_stub.Instr.Word.{bit, bitrng}
use rpi_stub.Decode.Extra.{Extra, arm_div_sdiv}
use rpi_stub.Decode.Context.{Context, stored, operand, addr_lin}
use rpi_stub.Decode.Int32.{add32, shl32, asr32, div32}

-- SDIV: the quotient of the operands, with a divisor other than 0
unfoldable pub signed_quotient : ℕ → ℕ → ℕ
unfolding bit add32 shl32 asr32 div32
signed_quotient stmp3 stmp2 =
    if bit stmp3 31 == bit stmp2 31
    then div32 stmp3 stmp2
    else asr32 (add32 (div32 (shl32 stmp3 1) stmp2) 1) 1

unfoldable pub sdiv_to : ℕ → ℕ → NextAddr
unfolding signed_quotient
sdiv_to stmp3 stmp2 = if stmp2 == 0 then arm_addr 0 else arm_addr (signed_quotient stmp3 stmp2)

-- UDIV: `tmp4` is what was added to the divisor and, where Rn is the PC, 8 more; `tmp1` is still
-- the number of Rd, 15, where the divisor is 0.
unfoldable pub udiv_quotient : ℕ → ℕ → ℕ
udiv_quotient tmp3 tmp2 = if tmp2 == 0 then 15 else tmp3 / tmp2

unfoldable pub udiv_to : Context → ℕ → ℕ → NextAddr
unfolding stored add32 udiv_quotient
udiv_to c rm rn =
    let ahead = if rm == 15 then 8 else 0 in
    let tmp4 = if rn == 15 then ahead + 8 else ahead in
    arm_addr (udiv_quotient (add32 (stored c rn) tmp4) (add32 (stored c rm) ahead))

unfoldable pub divide : Context → ℕ → ℕ → Extra → NextAddr
unfolding operand sdiv_to udiv_to
divide c rm rn arm_div_sdiv = sdiv_to (operand c rn) (operand c rm)
divide c rm rn _ = udiv_to c rm rn

-- `arm_core_data_div`
unfoldable pub arm_core_data_div : Context → ℕ → Extra → NextAddr
unfolding divide bitrng
arm_core_data_div c instr extra =
    if bitrng instr 19 16 == 15
    then divide c (bitrng instr 11 8) (bitrng instr 3 0) extra
    else if (bitrng instr 11 8 == 15) || (bitrng instr 3 0 == 15)
    then unpred_addr addr_lin
    else addr_lin
