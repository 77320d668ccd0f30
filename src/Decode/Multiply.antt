-- ===== src/Decode/Multiply.antt =====
-- `arm_core_data_mac` (ARM_decode_table.c): the multiplications with one result, into the PC.
use rpi_stub.Common.{ℕ, ◌/◌, ◌^◌, Option, none, some, ◌==◌, if◌then◌else◌, bit_and, bit_or}
use rpi_stub.Instr.Next.{NextAddr, undef_addr, unpred_addr, arm_addr}
use rpi_stub.Instr.Word.{bit, bitrng, from_short}
use rpi_stub.Decode.Extra.{
  Extra, arm_cmac_mul, arm_cmac_mla, arm_cmac_mls, arm_cmac_smulw, arm_cmac_smlaw, arm_cmac_smul,
  arm_cmac_smla, arm_cmac_smmul, arm_cmac_smmla, arm_cmac_smmls, arm_cmac_smuad, arm_cmac_smusd,
  arm_cmac_smlad, arm_cmac_smlsd,
}
use rpi_stub.Decode.Context.{Context, stored, operand, addr_lin}
use rpi_stub.Decode.Int32.{add32, sub32, mul32, shl32, long_of, word_at, add64}

-- `(int)(short int)bitrng(x, 31, 16)` or, with a clear bit of the instruction, of the low half
unfoldable pub half_of : ℕ → ℕ → ℕ
unfolding bitrng
half_of chosen x = from_short (if chosen == 0 then bitrng x 15 0 else bitrng x 31 16)

-- MUL: the low word of the product
unfoldable pub low_product : ℕ → ℕ → ℕ
unfolding mul32
low_product tmp1 tmp2 = mul32 tmp1 tmp2

-- SMULW: bits 47 to 16 of the product, whose type is `int`
unfoldable pub wide_product : ℕ → ℕ → ℕ → ℕ
unfolding bit half_of mul32 long_of word_at
wide_product instr tmp1 tmp2 = word_at (long_of (mul32 tmp2 (half_of (bit instr 6) tmp1))) 16

-- SMUL: the product of two halves
unfoldable pub half_product : ℕ → ℕ → ℕ → ℕ
unfolding bit half_of mul32
half_product instr tmp1 tmp2 = mul32 (half_of (bit instr 5) tmp2) (half_of (bit instr 6) tmp1)

-- SMMUL: the upper word of the product, whose type is `int`
unfoldable pub high_product : ℕ → ℕ → ℕ → ℕ
unfolding bit mul32 long_of word_at add64
high_product instr tmp1 tmp2 =
    let ltmp = long_of (mul32 tmp1 tmp2) in
    word_at (if bit instr 5 == 0 then ltmp else add64 ltmp 0x80000000) 32

-- the halves of Rm, swapped on bit 5
unfoldable pub swapped : ℕ → ℕ → ℕ
unfolding bit bitrng shl32
swapped instr tmp1 =
    if bit instr 5 == 0 then tmp1 else bit_or (bitrng tmp1 31 16) (shl32 (bitrng tmp1 15 0) 16)

-- `stmp1 * stmp2` of the low and of the high halves
unfoldable pub low_halves : ℕ → ℕ → ℕ
unfolding mul32
low_halves tmp1 tmp2 = mul32 (from_short (bit_and tmp1 0xffff)) (from_short (bit_and tmp2 0xffff))

unfoldable pub high_halves : ℕ → ℕ → ℕ
unfolding mul32
high_halves tmp1 tmp2 =
    mul32 (from_short (bit_and (tmp1 / 2 ^ 16) 0xffff))
      (from_short (bit_and (tmp2 / 2 ^ 16) 0xffff))

unfoldable pub dual_sum : ℕ → ℕ → ℕ
unfolding add32 low_halves high_halves
dual_sum tmp1 tmp2 = add32 (low_halves tmp1 tmp2) (high_halves tmp1 tmp2)

unfoldable pub dual_difference : ℕ → ℕ → ℕ
unfolding sub32 low_halves high_halves
dual_difference tmp1 tmp2 = sub32 (low_halves tmp1 tmp2) (high_halves tmp1 tmp2)

-- the `switch`, with the values of Rm, Rn and Ra
unfoldable pub mac_value : ℕ → ℕ → ℕ → ℕ → Extra → Option ℕ
unfolding add32 sub32 low_product wide_product half_product high_product swapped dual_sum
    dual_difference
mac_value instr rm rn ra arm_cmac_mul = some (low_product rm rn)
mac_value instr rm rn ra arm_cmac_mla = some (add32 (low_product rm rn) ra)
mac_value instr rm rn ra arm_cmac_mls = some (sub32 ra (low_product rm rn))
mac_value instr rm rn ra arm_cmac_smulw = some (wide_product instr rm rn)
mac_value instr rm rn ra arm_cmac_smlaw = some (add32 (wide_product instr rm rn) ra)
mac_value instr rm rn ra arm_cmac_smul = some (half_product instr rm rn)
mac_value instr rm rn ra arm_cmac_smla = some (add32 (half_product instr rm rn) ra)
mac_value instr rm rn ra arm_cmac_smmul = some (high_product instr rm rn)
mac_value instr rm rn ra arm_cmac_smmla = some (add32 (high_product instr rm rn) ra)
mac_value instr rm rn ra arm_cmac_smmls = some (sub32 ra (high_product instr rm rn))
mac_value instr rm rn ra arm_cmac_smuad = some (dual_sum (swapped instr rm) rn)
mac_value instr rm rn ra arm_cmac_smusd = some (dual_difference (swapped instr rm) rn)
mac_value instr rm rn ra arm_cmac_smlad = some (add32 (dual_sum (swapped instr rm) rn) ra)
mac_value instr rm rn ra arm_cmac_smlsd = some (add32 (dual_difference (swapped instr rm) rn) ra)
mac_value instr rm rn ra _ = none

-- `set_arm_addr` and `set_unpred_addr`
unfoldable pub unpredictable_arm : Option ℕ → NextAddr
unpredictable_arm none = undef_addr
unpredictable_arm (some a) = unpred_addr (arm_addr a)

-- `arm_core_data_mac`
unfoldable pub arm_core_data_mac : Context → ℕ → Extra → NextAddr
unfolding bitrng stored operand mac_value unpredictable_arm
arm_core_data_mac c instr extra =
    let rm = operand c (bitrng instr 11 8) in
    let rn = operand c (bitrng instr 3 0) in
    let ra = stored c (bitrng instr 15 12) in
    if bitrng instr 19 16 == 15
    then unpredictable_arm (mac_value instr rm rn ra extra)
    else addr_lin
