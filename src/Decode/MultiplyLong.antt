-- ===== src/Decode/MultiplyLong.antt =====
-- `arm_core_data_macd` (ARM_decode_table.c): the multiplications with a result of two words, one of
-- them the PC.
use rpi_stub.Common.{ℕ, ◌*◌, ◌%◌, ◌^◌, ◌==◌, ◌||◌, if◌then◌else◌}
use rpi_stub.Instr.Next.{NextAddr, unpred_addr, arm_addr}
use rpi_stub.Instr.Word.{bitrng}
use rpi_stub.Decode.Extra.{
  Extra, arm_cmac_smlal16, arm_cmac_smlal, arm_cmac_smull, arm_cmac_umaal, arm_cmac_umlal,
  arm_cmac_umull, arm_cmac_smlald, arm_cmac_smlsld,
}
use rpi_stub.Decode.Context.{Context, stored, operand, addr_lin}
use rpi_stub.Decode.Int32.{add32, mul32, long_of, word_at, add64}
use rpi_stub.Decode.Multiply.{swapped, dual_sum, dual_difference}

-- the word of the result that goes to the PC: the upper one where RdHi is the PC
unfoldable pub pc_word : ℕ → ℕ → ℕ
unfolding word_at
pc_word hi ltmp = if hi == 15 then word_at ltmp 32 else word_at ltmp 0

-- `x << 32` on `long long`
unfoldable pub upper : ℕ → ℕ
upper x = x * 2 ^ 32 % 2 ^ 64

-- SMLALxy and UMAAL: the product and the sum of RdHi and RdLo are `int`
unfoldable pub plus_words : Context → ℕ → ℕ → ℕ → ℕ → ℕ
unfolding add64 long_of mul32 add32 stored
plus_words c hi lo rm rn =
    add64 (long_of (mul32 rm rn)) (long_of (add32 (stored c hi) (stored c lo)))

-- SMLAL and UMLAL: `tmp3` and `tmp4` are the numbers of RdHi and RdLo
unfoldable pub plus_numbers : ℕ → ℕ → ℕ → ℕ
unfolding add64 upper
plus_numbers hi lo product = add64 (add64 product (upper hi)) lo

-- SMLALD and SMLSLD
unfoldable pub plus_long : Context → ℕ → ℕ → ℕ → ℕ
unfolding add64 upper long_of stored
plus_long c hi lo sum =
    add64 (add64 (long_of sum) (upper (long_of (stored c hi)))) (long_of (stored c lo))

-- the `switch`: `tmp4` behind it
unfoldable pub macd_value : Context → ℕ → ℕ → ℕ → ℕ → ℕ → Extra → ℕ
unfolding pc_word plus_words plus_numbers plus_long long_of mul32 swapped dual_sum dual_difference
macd_value c instr hi lo rm rn arm_cmac_smlal16 = pc_word hi (plus_words c hi lo rm rn)
macd_value c instr hi lo rm rn arm_cmac_smlal =
    pc_word hi (plus_numbers hi lo (long_of (mul32 rm rn)))
macd_value c instr hi lo rm rn arm_cmac_smull = pc_word hi (long_of (mul32 rm rn))
macd_value c instr hi lo rm rn arm_cmac_umaal = pc_word hi (plus_words c hi lo rm rn)
macd_value c instr hi lo rm rn arm_cmac_umlal = pc_word hi (plus_numbers hi lo (mul32 rm rn))
macd_value c instr hi lo rm rn arm_cmac_umull = pc_word hi (mul32 rm rn)
macd_value c instr hi lo rm rn arm_cmac_smlald =
    pc_word hi (plus_long c hi lo (dual_sum (swapped instr rm) rn))
macd_value c instr hi lo rm rn arm_cmac_smlsld =
    pc_word hi (plus_long c hi lo (dual_difference (swapped instr rm) rn))
macd_value c instr hi lo rm rn _ = lo

-- `arm_core_data_macd`
unfoldable pub arm_core_data_macd : Context → ℕ → Extra → NextAddr
unfolding bitrng operand macd_value
arm_core_data_macd c instr extra =
    let hi = bitrng instr 19 16 in
    let lo = bitrng instr 15 12 in
    let rm = operand c (bitrng instr 11 8) in
    let rn = operand c (bitrng instr 3 0) in
    if (hi == 15) || (lo == 15)
    then unpred_addr (arm_addr (macd_value c instr hi lo rm rn extra))
    else addr_lin
