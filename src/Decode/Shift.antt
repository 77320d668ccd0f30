-- ===== src/Decode/Shift.antt =====
-- The second operand of the data processing instructions and of loads (ARM_decode_table.c): shifts
-- as the decoding functions write them.
use rpi_stub.Common.{ℕ, ◌-◌, ◌*◌, ◌/◌, ◌^◌, ◌==◌, ◌||◌, not, if◌then◌else◌, bit_and, bit_or}
use rpi_stub.Instr.Condition.{to_int}
use rpi_stub.Decode.Int32.{shl32, asr32}

-- `(~0) << n`
unfoldable pub mask_from : ℕ → ℕ
mask_from n = 2 ^ 32 - 2 ^ n

-- `(low & ~mask) || (top & mask)`: the `||` of C gives 0 or 1
unfoldable pub joined : ℕ → ℕ → ℕ → ℕ
unfolding mask_from
joined low top n =
    to_int (not (bit_and low (2 ^ n - 1) == 0) || not (bit_and top (mask_from n) == 0))

-- the case ROR, for `0 < n < 32`
unfoldable pub rotated : ℕ → ℕ → ℕ
unfolding joined shl32
rotated x n = joined (x / 2 ^ n) (shl32 x (32 - n)) n

-- the case RRX, with the carry flag
unfoldable pub with_carry : ℕ → ℕ → ℕ
with_carry x flag = bit_or (x / 2) (flag * 2 ^ 31)

-- the `switch` over the kind of shift, with the immediate `n`
unfoldable pub shift_imm : ℕ → ℕ → ℕ → ℕ → ℕ
unfolding shl32 asr32 rotated with_carry
shift_imm flag x kind n =
    if kind == 0
    then shl32 x n
    else if kind == 1
    then if n == 0 then 0 else x / 2 ^ n
    else if kind == 2
    then asr32 x (if n == 0 then 31 else n)
    else if n == 0
    then with_carry x flag
    else rotated x n

-- the `switch` over the kind of shift, with a count from a register, not 0
unfoldable pub shift_reg : ℕ → ℕ → ℕ → ℕ
unfolding shl32 asr32 rotated
shift_reg x kind n =
    if kind == 0
    then shl32 x n
    else if kind == 1
    then x / 2 ^ n
    else if kind == 2
    then asr32 x n
    else rotated x n

-- `tmp1`, which the case ROR uses for its mask, behind the switch
unfoldable pub kept : ℕ → ℕ → ℕ → ℕ
unfolding mask_from
kept tmp1 kind n = if kind == 3 then if n == 0 then tmp1 else mask_from n else tmp1
