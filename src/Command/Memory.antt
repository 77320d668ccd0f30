-- ===== src/Command/Memory.antt =====
-- `gdb_cmd_read_mem_hex`, `gdb_cmd_write_mem_hex`, `gdb_cmd_read_mem_bin` and
-- `gdb_cmd_write_mem_bin` (gdb.c): the commands m, M, x and X. The packet is the text behind the
-- command's letter; the answer is the payload that is sent, where one is sent.
pub mod RoundTrip
pub mod Cut
use rpi_stub.Common.{
  ℕ, zero, suc, ◌+◌, ◌-◌, Option, none, some, [], ◌∷◌, Bytes, take, ltb, if◌then◌else◌,
}
use rpi_stub.Util.Hex.{hex_to_word}
use rpi_stub.Packet.Data.{write_hex_data, read_hex_data, write_bin_data, read_bin_data}
use rpi_stub.Packet.Frame.{max_msg_len}
use rpi_stub.Stub.Memory.{Memory, store}
use rpi_stub.Command.Argument.{argument, int_rounds}

-- the bytes from an address on
unfoldable pub bytes_at : Memory → ℕ → ℕ → Bytes
bytes_at m address zero = []
bytes_at m address (suc n) = m address ∷ bytes_at m (address + 1) n

-- bytes that are written from an address on
unfoldable pub put_bytes : Memory → ℕ → Bytes → Memory
unfolding store
put_bytes m address [] = m
put_bytes m address (b ∷ bs) = put_bytes (store 1 m address b) (address + 1) bs

-- the answer `OK`
abbrev pub ok_text : Bytes
ok_text = b'O' ∷ b'K' ∷ []

-- `gdb_cmd_read_mem_hex` behind the first argument
unfoldable pub read_hex_at : Memory → ℕ × Bytes → ℕ → Option Bytes
unfolding int_rounds bytes_at write_hex_data hex_to_word
read_hex_at m (addr, rest) packet_len =
    let count = int_rounds (hex_to_word rest) in
    let (text, len) = write_hex_data (bytes_at m addr count) count (max_msg_len - 5) in
    if ltb 0 packet_len then some (take len text) else none

-- `gdb_cmd_read_mem_hex`
unfoldable pub read_mem_hex : Memory → Bytes → ℕ → Option Bytes
unfolding argument read_hex_at
read_mem_hex m packet packet_len = read_hex_at m (argument b',' packet) packet_len

-- `gdb_cmd_write_mem_hex` behind the second argument, and behind the first
unfoldable pub write_hex_behind : Memory → ℕ → ℕ × Bytes → ℕ → Memory × Option Bytes
unfolding int_rounds put_bytes read_hex_data
write_hex_behind m addr (bytes, text) packet_len =
    let (written, n) = read_hex_data text (int_rounds bytes) max_msg_len in
    if ltb 0 packet_len then (put_bytes m addr written, some ok_text) else (m, none)

unfoldable pub write_hex_at : Memory → ℕ × Bytes → ℕ → Memory × Option Bytes
unfolding argument write_hex_behind
write_hex_at m (addr, rest) packet_len = write_hex_behind m addr (argument b':' rest) packet_len

-- `gdb_cmd_write_mem_hex`
unfoldable pub write_mem_hex : Memory → Bytes → ℕ → Memory × Option Bytes
unfolding argument write_hex_at
write_mem_hex m packet packet_len = write_hex_at m (argument b',' packet) packet_len

-- `gdb_cmd_read_mem_bin` behind the first argument
unfoldable pub read_bin_at : Memory → ℕ × Bytes → ℕ → Option Bytes
unfolding int_rounds bytes_at write_bin_data hex_to_word
read_bin_at m (addr, rest) packet_len =
    let count = int_rounds (hex_to_word rest) in
    let (text, len) = write_bin_data (bytes_at m addr count) count (max_msg_len - 5) in
    if ltb 1 packet_len then some (take len text) else none

-- `gdb_cmd_read_mem_bin`
unfoldable pub read_mem_bin : Memory → Bytes → ℕ → Option Bytes
unfolding argument read_bin_at
read_mem_bin m packet packet_len = read_bin_at m (argument b',' packet) packet_len

-- `gdb_cmd_write_mem_bin` behind the second argument, and behind the first
unfoldable pub write_bin_behind : Memory → ℕ → ℕ × Bytes → ℕ → Memory × Option Bytes
unfolding int_rounds put_bytes read_bin_data
write_bin_behind m addr (bytes, text) packet_len =
    let (written, n) = read_bin_data text (int_rounds bytes) max_msg_len in
    if ltb 1 packet_len then (put_bytes m addr written, some ok_text) else (m, none)

unfoldable pub write_bin_at : Memory → ℕ × Bytes → ℕ → Memory × Option Bytes
unfolding argument write_bin_behind
write_bin_at m (addr, rest) packet_len = write_bin_behind m addr (argument b':' rest) packet_len

-- `gdb_cmd_write_mem_bin`
unfoldable pub write_mem_bin : Memory → Bytes → ℕ → Memory × Option Bytes
unfolding argument write_bin_at
write_mem_bin m packet packet_len = write_bin_at m (argument b',' packet) packet_len
