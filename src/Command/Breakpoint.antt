-- ===== src/Command/Breakpoint.antt =====
-- `gdb_cmd_add_breakpoint` and `gdb_cmd_delete_breakpoint` (gdb.c): the commands Z0 and z0. The packet
-- is the text behind `Z0` or `z0`.
pub mod Answer
use rpi_stub.Common.{ℕ, [], ◌∷◌, Bytes, drop, ltb, ◌==◌, if◌then◌else◌}
use rpi_stub.Util.Hex.{peek, hex_to_word}
use rpi_stub.Stub.Breakpoints.{Breakpoints, set_trap, unset_trap, trap_arm, trap_thumb}
use rpi_stub.Command.Argument.{argument}
use rpi_stub.Command.Memory.{ok_text}

-- the answers `E01` to `E04`
abbrev pub error_text : ℕ → Bytes
error_text n = b'E' ∷ b'0' ∷ n ∷ []

-- the answer by the result of `dgb_set_trap`
unfoldable pub set_answer : ℕ × Breakpoints → Breakpoints × Bytes
set_answer (result, s) = if result == 0 then (s, ok_text) else (s, error_text b'1')

-- the answer by the result of `dgb_unset_trap`
unfoldable pub unset_answer : ℕ × Breakpoints → Breakpoints × Bytes
unset_answer (result, s) =
    if result == 0
    then (s, ok_text)
    else if result == 1
    then (s, error_text b'1')
    else if result == 2
    then (s, error_text b'2')
    else if result == 3
    then (s, error_text b'3')
    else (s, error_text b'4')

-- `if (*gdb_in_packet == ',') gdb_in_packet++;`
unfoldable pub skip_comma : Bytes → Bytes
skip_comma packet = if peek packet == b',' then drop 1 packet else packet

-- `gdb_cmd_add_breakpoint` behind the address; a kind that is not supported has the empty answer
unfoldable pub add_at : Breakpoints → ℕ × Bytes → Breakpoints × Bytes
add_at s (addr, text) =
    if hex_to_word text == 4 then set_answer (set_trap addr trap_arm s) else (s, [])

-- `gdb_cmd_add_breakpoint`
unfoldable pub add_breakpoint : Breakpoints → Bytes → ℕ → Breakpoints × Bytes
add_breakpoint s packet packet_len =
    if ltb packet_len 1 then (s, error_text b'1') else add_at s (argument b',' (skip_comma packet))

-- `gdb_cmd_delete_breakpoint` behind the address
unfoldable pub delete_at : Breakpoints → ℕ × Bytes → Breakpoints × Bytes
delete_at s (addr, text) =
    if hex_to_word text == 2
    then unset_answer (unset_trap addr trap_thumb s)
    else if hex_to_word text == 4
    then unset_answer (unset_trap addr trap_arm s)
    else (s, [])

-- `gdb_cmd_delete_breakpoint`
unfoldable pub delete_breakpoint : Breakpoints → Bytes → ℕ → Breakpoints × Bytes
delete_breakpoint s packet packet_len =
    if ltb packet_len 1
    then (s, error_text b'1')
    else delete_at s (argument b',' (skip_comma packet))
