-- ===== src/Command/Registers.antt =====
-- `gdb_cmd_read_reg` and `gdb_cmd_write_reg` (gdb.c): the commands p and P. The packet is the text
-- behind the command's letter; the answers are the payloads that are sent, in their order.
pub mod Answer
pub mod RoundTrip
use rpi_stub.Common.{
  ℕ, ◌+◌, ◌-◌, List, [], ◌∷◌, Bytes, Bool, take, set, get_or, ltb, ◌==◌, ◌&&◌, if◌then◌else◌,
}
use rpi_stub.Util.Hex.{hex_to_word, hex_to_dword, word_to_hex, dword_to_hex}
use rpi_stub.Util.Text.{str_len}
use rpi_stub.Util.Swap.{swap_bytes, swap_bytesd}
use rpi_stub.Decode.Context.{Context, stored}
use rpi_stub.Command.Argument.{argument_in}
use rpi_stub.Command.Memory.{ok_text}

-- `rpi2_reg_context`, the fields of `rpi2_neon_context` that the client sees, and `gdb_xmlregs`
pub record Bank : Type 0 where
  pub context : Context
  pub neon : List ℕ
  pub fpscr : ℕ
  pub xmlregs : Bool

-- the answer `E00`
abbrev pub err_text : Bytes
err_text = b'E' ∷ b'0' ∷ b'0' ∷ []

-- `gdb_send_packet(scratchpad, util_str_len(scratchpad))`
unfoldable pub whole : Bytes → Bytes
unfolding str_len
whole text = take (str_len text) text

unfoldable pub word_answer : ℕ → Bytes
word_answer value = whole (word_to_hex (swap_bytes value))

unfoldable pub dword_answer : ℕ → Bytes
dword_answer value = whole (dword_to_hex (swap_bytesd value))

-- the answer of `gdb_cmd_read_reg` for a register's number; `unset` is what `value` holds before
-- anything is assigned to it
unfoldable pub reg_answer : Bank → ℕ → ℕ → Bytes
reg_answer b unset reg =
    if ltb reg 16
    then word_answer (stored b.context reg)
    else if ltb 15 reg && ltb reg 25
    then word_answer unset
    else if reg == 25
    then word_answer (stored b.context 16)
    else if b.xmlregs
    then (if ltb 25 reg && ltb reg 58
        then dword_answer (get_or b.neon (reg - 26) 0)
        else if reg == 58
        then word_answer b.fpscr
        else err_text)
    else err_text

-- `gdb_cmd_read_reg`
unfoldable pub read_reg : Bank → ℕ → Bytes → ℕ → List Bytes
read_reg b unset packet packet_len =
    if ltb 0 packet_len then reg_answer b unset (hex_to_word packet) ∷ [] else []

-- `rpi2_reg_context.storage[reg] = value`
unfoldable pub with_stored : Bank → ℕ → ℕ → Bank
with_stored b i v = record b { context = record b.context { storage = set b.context.storage i v } }

-- `rpi2_neon_context.storage[i] = v` and `rpi2_neon_context.fpscr = v`
unfoldable pub with_neon : Bank → ℕ → ℕ → Bank
with_neon b i v = record b { neon = set b.neon i v }

unfoldable pub with_fpscr : Bank → ℕ → Bank
with_fpscr b v = record b { fpscr = v }

-- what `gdb_cmd_write_reg` does behind the register's number
unfoldable pub write_reg_at : Bank → ℕ × Bytes → Bank × List Bytes
write_reg_at b (reg, text) =
    if ltb 15 reg && ltb reg 25
    then (b, ok_text ∷ [])
    else if ltb reg 16
    then (with_stored b reg (swap_bytes (hex_to_word text)), ok_text ∷ [])
    else if reg == 25
    then (with_stored b 16 (swap_bytes (hex_to_word text)), ok_text ∷ [])
    else if b.xmlregs
    then (if ltb 25 reg && ltb reg 58
        then (with_neon b (reg - 26) (swap_bytesd (hex_to_dword text)), ok_text ∷ [])
        else if reg == 58
        then (with_fpscr b (swap_bytes (hex_to_word text)), ok_text ∷ [])
        else (b, err_text ∷ ok_text ∷ []))
    else (b, err_text ∷ [])

-- `gdb_cmd_write_reg`
unfoldable pub write_reg : Bank → Bytes → ℕ → Bank × List Bytes
write_reg b packet packet_len =
    if ltb 0 packet_len then write_reg_at b (argument_in 32 b'=' packet) else (b, err_text ∷ [])
