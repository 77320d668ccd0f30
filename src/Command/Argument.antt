-- ===== src/Command/Argument.antt =====
-- The arguments of commands (gdb.c): a hex number up to a delimiter, through the scratchpad.
pub mod Text
use rpi_stub.Common.{ℕ, ◌+◌, ◌^◌, Bytes, drop, ltb, if◌then◌else◌}
use rpi_stub.Util.Hex.{hex_to_word}
use rpi_stub.Util.Text.{cpy_substr}

-- `scratch_len`
abbrev pub scratch_len : ℕ
scratch_len = 16

-- the number in front of the delimiter, through a scratchpad of a size, and the packet behind the text
-- that was copied and one more
unfoldable pub argument_in : ℕ → ℕ → Bytes → ℕ × Bytes
unfolding cpy_substr hex_to_word
argument_in size delim packet =
    let (scratchpad, len) = cpy_substr packet delim size in
    (hex_to_word scratchpad, drop (len + 1) packet)

unfoldable pub argument : ℕ → Bytes → ℕ × Bytes
unfolding argument_in
argument delim packet = argument_in scratch_len delim packet

-- `(int)bytes`, as the number of rounds of a loop that counts up to it
unfoldable pub int_rounds : ℕ → ℕ
int_rounds bytes = if ltb bytes (2 ^ 31) then bytes else 0
