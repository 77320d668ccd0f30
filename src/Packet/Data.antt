-- ===== src/Packet/Data.antt =====
-- The data formats of packets (gdb.c): memory as hex digits and as escaped bytes, both ways.
pub mod RoundTrip
pub mod Count
use rpi_stub.Common.{
  ℕ, zero, suc, ◌+◌, [], ◌∷◌, ◌++◌, Bytes, take, drop, ltb, length, if◌then◌else◌,
}
use rpi_stub.Util.Hex.{peek, byte_to_hex, then_at_2, hex_to_byte}
use rpi_stub.Util.Escape.{byte_to_bin, bin_to_byte}

-- what is written, with more in front
abbrev pub behind : Bytes → Bytes × ℕ → Bytes × ℕ
behind front r = (front ++ r.0, r.1)

-- `gdb_write_hex_data`: the arguments are the bytes from `src` on, the rounds that `count` leaves,
-- `max` and `j`; it gives what it writes to `dst` and its result, `j`.
unfoldable pub write_hex_loop : Bytes → ℕ → ℕ → ℕ → Bytes × ℕ
write_hex_loop src zero max j = (0 ∷ [], j)
write_hex_loop src (suc n) max j =
    let more = write_hex_loop (drop 1 src) n max (j + 2) in
    if ltb max (j + 2) then (0 ∷ [], j) else behind (take 2 (byte_to_hex (peek src))) more

unfoldable pub write_hex_data : Bytes → ℕ → ℕ → Bytes × ℕ
unfolding write_hex_loop
write_hex_data indata count max = write_hex_loop indata count max 0

-- `gdb_write_bin_data`: the result is `i`, the number of bytes that were read.
unfoldable pub write_bin_loop : Bytes → ℕ → ℕ → ℕ → ℕ → Bytes × ℕ
write_bin_loop src zero max i j = ([], i)
write_bin_loop src (suc n) max i j =
    let out = byte_to_bin (peek src) in
    let more = write_bin_loop (drop 1 src) n max (i + 1) (j + length out) in
    if ltb max (j + 2) then ([], i) else behind out more

unfoldable pub write_bin_data : Bytes → ℕ → ℕ → Bytes × ℕ
unfolding write_bin_loop
write_bin_data indata count max = write_bin_loop indata count max 0 0

-- `gdb_read_hex_data`; here `i` and `j` are the same number.
unfoldable pub read_hex_loop : Bytes → ℕ → ℕ → ℕ → Bytes × ℕ
read_hex_loop src zero max i = ([], i)
read_hex_loop src (suc n) max i =
    let more = read_hex_loop (drop 2 src) n max (i + 1) in
    if ltb max (i + 1) then ([], i) else behind (hex_to_byte src ∷ []) more

unfoldable pub read_hex_data : Bytes → ℕ → ℕ → Bytes × ℕ
unfolding read_hex_loop
read_hex_data hexdata count max = read_hex_loop hexdata count max 0

-- `gdb_read_bin_data`; here too `i` and `j` are the same number.
unfoldable pub read_bin_loop : Bytes → ℕ → ℕ → ℕ → Bytes × ℕ
read_bin_loop src zero max i = ([], i)
read_bin_loop src (suc n) max i =
    let (byte, cnt) = bin_to_byte src in
    let more = read_bin_loop (drop cnt src) n max (i + 1) in
    if ltb max (i + 2) then ([], i) else behind (byte ∷ []) more

unfoldable pub read_bin_data : Bytes → ℕ → ℕ → Bytes × ℕ
unfolding read_bin_loop
read_bin_data bindata count max = read_bin_loop bindata count max 0
