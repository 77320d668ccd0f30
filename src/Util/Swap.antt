-- ===== src/Util/Swap.antt =====
-- Words with their bytes in the opposite order (util.c).
use rpi_stub.Common.{ℕ, ◌+◌, ◌*◌, ◌/◌, ◌%◌, ◌^◌, ◌<◌, ◌≡◌, arith}

-- the byte of a word from bit `s` on
abbrev pub byte_from : ℕ → ℕ → ℕ
byte_from v s = v / 2 ^ s % 2 ^ 8

-- `util_swap_bytes`
unfoldable pub swap_bytes : ℕ → ℕ
swap_bytes v =
    byte_from v 24 + byte_from v 16 * 2 ^ 8 + byte_from v 8 * 2 ^ 16 + byte_from v 0 * 2 ^ 24

-- `util_swap_bytesd`
unfoldable pub swap_bytesd : ℕ → ℕ
swap_bytesd v =
    byte_from v 56
    + byte_from v 48 * 2 ^ 8
    + byte_from v 40 * 2 ^ 16
    + byte_from v 32 * 2 ^ 24
    + byte_from v 24 * 2 ^ 32
    + byte_from v 16 * 2 ^ 40
    + byte_from v 8 * 2 ^ 48
    + byte_from v 0 * 2 ^ 56

pub swap_bytes-lt : (v : ℕ) → swap_bytes v < 2 ^ 32
unfolding swap_bytes
swap_bytes-lt v = omega arith

-- Swapping the bytes of a word twice gives the word.
pub swap_bytes_twice : (v : ℕ) → v < 2 ^ 32 → swap_bytes (swap_bytes v) ≡ v
unfolding swap_bytes
swap_bytes_twice v h = omega arith

pub swap_bytesd-lt : (v : ℕ) → swap_bytesd v < 2 ^ 64
unfolding swap_bytesd
swap_bytesd-lt v = omega arith

-- Swapping the bytes of a double word twice gives the double word.
pub swap_bytesd_twice : (v : ℕ) → v < 2 ^ 64 → swap_bytesd (swap_bytesd v) ≡ v
unfolding swap_bytesd
swap_bytesd_twice v h = omega arith
