-- ===== src/Command/RegisterFile.antt =====
-- `gdb_cmd_get_regs` and `gdb_cmd_set_regs` (gdb.c): the commands g and G, on all registers at once.
pub mod Answer
use rpi_stub.Common.{
  ℕ, zero, suc, ◌+◌, ◌-◌, ◌*◌, ◌/◌, ◌%◌, ◌^◌, List, [], ◌∷◌, ◌++◌, Bytes, Bool, Option, none, some,
  take, drop, length, replicate, get_or, ltb, ◌==◌, if◌then◌else◌,
}
use rpi_stub.Packet.Data.{write_hex_data, read_hex_data}
use rpi_stub.Packet.Frame.{max_msg_len}
use rpi_stub.Decode.Context.{Context, stored}
use rpi_stub.Command.Memory.{ok_text}
use rpi_stub.Command.Registers.{Bank, err_text, with_stored, with_neon, with_fpscr}

-- the bytes of words in the debuggee's order
unfoldable pub word_bytes : List ℕ → Bytes
word_bytes [] = []
word_bytes (v ∷ vs) =
    v % 2 ^ 8 ∷ v / 2 ^ 8 % 2 ^ 8 ∷ v / 2 ^ 16 % 2 ^ 8 ∷ v / 2 ^ 24 % 2 ^ 8 ∷ word_bytes vs

-- the word with number `i` of a buffer
unfoldable pub word_of : Bytes → ℕ → ℕ
word_of buff i =
    get_or buff (4 * i) 0
    + get_or buff (4 * i + 1) 0 * 2 ^ 8
    + get_or buff (4 * i + 2) 0 * 2 ^ 16
    + get_or buff (4 * i + 3) 0 * 2 ^ 24

-- the words of double words, the lower one first
unfoldable pub halves : List ℕ → List ℕ
halves [] = []
halves (d ∷ ds) = d % 2 ^ 32 ∷ d / 2 ^ 32 ∷ halves ds

-- the words that `gdb_cmd_get_regs` puts into `tmp_buff`
unfoldable pub reg_words : Bank → List ℕ
reg_words b =
    if b.xmlregs
    then take 16 b.context.storage ++ stored b.context 16 ∷ (halves b.neon ++ b.fpscr ∷ [])
    else take 16 b.context.storage ++ (replicate 9 0x90000009 ++ stored b.context 16 ∷ [])

-- `gdb_cmd_get_regs`
unfoldable pub get_regs : Bank → List Bytes
get_regs b =
    let buff = word_bytes (reg_words b) in
    let (text, len) = write_hex_data buff (length buff) max_msg_len in take len text ∷ []

-- `*((uint32_t *)&rpi2_neon_context + i) = v`
unfoldable pub put_half : Bank → ℕ → ℕ → Bank
put_half b i v =
    let d = get_or b.neon (i / 2) 0 in
    with_neon b (i / 2) (if i % 2 == 0 then d / 2 ^ 32 * 2 ^ 32 + v else d % 2 ^ 32 + v * 2 ^ 32)

-- a dummy register
abbrev pub skip_word : Bank → ℕ → ℕ → Bank
skip_word b i v = b

-- the loops of `gdb_cmd_set_regs`: `step` is what `len` grows by; `none` is the return with `E00`
unfoldable pub store_words :
    (Bank → ℕ → ℕ → Bank) → ℕ → ℕ → (ℕ → ℕ) → ℕ → ℕ → ℕ → Bank → Bank × Option ℕ
store_words put step packet_len word zero i len b = (b, some len)
store_words put step packet_len word (suc n) i len b =
    let stored_one = put b i (word i) in
    let rest = store_words put step packet_len word n (i + 1) (len + step) stored_one in
    if ltb packet_len (len + step) then (stored_one, none) else rest

-- behind the words of the vector registers
unfoldable pub set_fpscr : ℕ → (ℕ → ℕ) → Bank × Option ℕ → Bank × List Bytes
set_fpscr packet_len word (b, none) = (b, err_text ∷ [])
set_fpscr packet_len word (b, some len) =
    if ltb packet_len len then (b, err_text ∷ []) else (with_fpscr b (word 81), ok_text ∷ [])

-- the CPSR, which stands in the buffer at `at`, and the vector registers
unfoldable pub set_cpsr : Bool → ℕ → (ℕ → ℕ) → ℕ → Bank × Option ℕ → Bank × List Bytes
set_cpsr xmlregs packet_len word at (b, none) = (b, err_text ∷ [])
set_cpsr xmlregs packet_len word at (b, some len) =
    let after = with_stored b 16 (word at) in
    if ltb packet_len len
    then (b, err_text ∷ [])
    else if xmlregs
    then (if ltb packet_len (len + 8)
        then (after, err_text ∷ [])
        else set_fpscr packet_len word
            (store_words put_half 16 packet_len (λ i. word (17 + i)) 64 0 (len + 8) after))
    else (after, ok_text ∷ [])

-- behind r0 to r15
unfoldable pub set_dummies : Bool → ℕ → (ℕ → ℕ) → Bank × Option ℕ → Bank × List Bytes
set_dummies xmlregs packet_len word (b, none) = (b, err_text ∷ [])
set_dummies xmlregs packet_len word (b, some len) =
    if xmlregs
    then set_cpsr xmlregs packet_len word 16 (b, some len)
    else if ltb packet_len len
    then (b, err_text ∷ [])
    else set_cpsr xmlregs packet_len word 25 (store_words skip_word 8 packet_len word 9 16 len b)

-- `gdb_cmd_set_regs`; `buff` is what `tmp_buff` holds from the last command
unfoldable pub set_regs : Bank → Bytes → Bytes → ℕ → Bank × List Bytes
set_regs b buff packet packet_len =
    let (written, n) = read_hex_data packet packet_len 512 in
    let word = word_of (written ++ drop (length written) buff) in
    if ltb 0 packet_len
    then set_dummies b.xmlregs packet_len word (store_words with_stored 8 packet_len word 16 0 0 b)
    else (b, [])
