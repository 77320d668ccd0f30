-- ===== src/Decode/Int32.antt =====
-- The arithmetic of `unsigned int`, `int` and `long long` in the decoding functions
-- (ARM_decode_table.c). An `int` is kept as the 32 bits of its two's complement, and a `long long`
-- as 64 bits.
use rpi_stub.Common.{ℕ, ◌+◌, ◌-◌, ◌*◌, ◌/◌, ◌%◌, ◌^◌, ltb, if◌then◌else◌}

-- `x + y`, `x - y` and `~x`
unfoldable pub add32 : ℕ → ℕ → ℕ
add32 x y = (x + y) % 2 ^ 32

unfoldable pub sub32 : ℕ → ℕ → ℕ
sub32 x y = (x + (2 ^ 32 - y)) % 2 ^ 32

unfoldable pub not32 : ℕ → ℕ
not32 x = 2 ^ 32 - 1 - x

-- `x * y`, of `int` and of `unsigned int` alike
unfoldable pub mul32 : ℕ → ℕ → ℕ
mul32 x y = x * y % 2 ^ 32

-- `x << n` and, on `int`, `x >> n`, for `n < 32`
unfoldable pub shl32 : ℕ → ℕ → ℕ
shl32 x n = x * 2 ^ n % 2 ^ 32

unfoldable pub asr32 : ℕ → ℕ → ℕ
asr32 x n = if ltb x (2 ^ 31) then x / 2 ^ n else 2 ^ 32 - 1 - (2 ^ 32 - 1 - x) / 2 ^ n

-- the distance of an `int` from 0
unfoldable pub size : ℕ → ℕ
size x = if ltb x (2 ^ 31) then x else 2 ^ 32 - x

-- `x / y` on `int`, which C rounds towards 0, for a `y` other than 0
unfoldable pub div32 : ℕ → ℕ → ℕ
unfolding size
div32 x y =
    let q = size x / size y in
    if ltb x (2 ^ 31)
    then if ltb y (2 ^ 31) then q else (2 ^ 32 - q) % 2 ^ 32
    else if ltb y (2 ^ 31)
    then (2 ^ 32 - q) % 2 ^ 32
    else q

-- an `int` as a `long long`, and `(x >> n) & 0xffffffff` and `x + y` on `long long`
unfoldable pub long_of : ℕ → ℕ
long_of x = if ltb x (2 ^ 31) then x else x + (2 ^ 64 - 2 ^ 32)

unfoldable pub word_at : ℕ → ℕ → ℕ
word_at x n = x / 2 ^ n % 2 ^ 32

unfoldable pub add64 : ℕ → ℕ → ℕ
add64 x y = (x + y) % 2 ^ 64
