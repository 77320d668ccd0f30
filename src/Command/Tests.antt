-- ===== src/Command/Tests.antt =====
-- The commands at concrete packets (gdb.c).
mod Breakpoint
use rpi_stub.Common.{
  ℕ, replicate, ◌+◌, zero, suc, ◌^◌, ◌≤◌, ◌<◌, ap, get_or, inl, true, ◌≡◌, refl, some, [], ◌∷◌,
  ◌++◌, Bytes, All, IsByte, length, take, arith,
}
use rpi_stub.Util.Hex.{hex_to_word, hex_to_nib, word_to_hex, nib_to_hex, byte_to_hex}
use rpi_stub.Packet.Data.RoundTrip.{hex, escaped}
use rpi_stub.Packet.Data.Count.{specials}
use rpi_stub.Stub.Memory.{Memory}
use rpi_stub.Command.Memory.{
  bytes_at, ok_text, read_mem_hex, write_mem_hex, read_mem_bin, write_mem_bin,
}
use rpi_stub.Command.Argument.Text.{IsArgument}
use rpi_stub.Decode.Context.{stored}
use rpi_stub.Util.Text.{str_len, len_loop}
use rpi_stub.Util.Swap.{swap_bytes}
use rpi_stub.Command.Registers.{err_text, Bank, reg_answer, word_answer, whole, write_reg, read_reg}
use rpi_stub.Command.Registers.RoundTrip.{IsBank, read_reg-write_reg}
use rpi_stub.Command.RegisterFile.{set_regs, reg_words, halves}
use rpi_stub.Command.RegisterFile.Answer.{set_regs-answer}
use rpi_stub.Command.Memory.RoundTrip.{read_mem_hex-write_mem_hex}
use rpi_stub.Command.Memory.Cut.{read_mem_bin-write_mem_bin}

abbrev zeroed : Memory
zeroed q = 0

-- the arguments `1f0` and `3`, and three bytes, of which `#` is escaped
abbrev address_text : Bytes
address_text = b'1' ∷ b'f' ∷ b'0' ∷ []

abbrev count_text : Bytes
count_text = b'3' ∷ []

abbrev three_bytes : Bytes
three_bytes = 0x23 ∷ 0x41 ∷ 0xff ∷ []

address_text-IsArgument : All (IsArgument b',') address_text
address_text-IsArgument =
    ((omega arith, omega arith), ((omega arith, omega arith), ((omega arith, omega arith), tt)))

count_text-IsArgument : All (IsArgument b':') count_text
count_text-IsArgument = ((omega arith, omega arith), tt)

three_bytes-IsByte : All IsByte three_bytes
three_bytes-IsByte = (omega arith, (omega arith, (omega arith, tt)))

count_text-value : hex_to_word count_text ≡ 3
unfolding hex_to_word hex_to_nib
count_text-value = refl

read_mem_hex-write_mem_hex_example :
    let (after, answer) =
      write_mem_hex zeroed
        (address_text ++ b',' ∷ (count_text ++ b':' ∷ (hex three_bytes ++ [])))
        12 in
    (answer ≡ some ok_text)
    × (bytes_at after (hex_to_word address_text) 3 ≡ three_bytes)
    × (after 0x100 ≡ 0)
    × (read_mem_hex after (address_text ++ b',' ∷ count_text) 5 ≡ some (hex three_bytes))
unfolding hex_to_word hex_to_nib
read_mem_hex-write_mem_hex_example =
    read_mem_hex-write_mem_hex zeroed address_text count_text three_bytes [] 12 5 0x100
      address_text-IsArgument (omega arith) count_text-IsArgument (omega arith) three_bytes-IsByte
      count_text-value (omega arith) (omega arith) (omega arith) refl

read_mem_bin-write_mem_bin_example :
    let text = escaped three_bytes in
    let packet = address_text ++ b',' ∷ (count_text ++ b':' ∷ (text ++ [])) in
    let (after, answer) = write_mem_bin zeroed packet 10 in
    (answer ≡ some ok_text)
    × (bytes_at after (hex_to_word address_text) 3 ≡ three_bytes)
    × (after 0x100 ≡ 0)
    × (read_mem_bin after (address_text ++ b',' ∷ count_text) 5 ≡ some (take 3 text))
    × (length text ≡ 3 + specials three_bytes)
unfolding hex_to_word hex_to_nib
read_mem_bin-write_mem_bin_example =
    read_mem_bin-write_mem_bin zeroed address_text count_text three_bytes [] 10 5 0x100
      address_text-IsArgument (omega arith) count_text-IsArgument (omega arith) three_bytes-IsByte
      count_text-value (omega arith) (omega arith) (omega arith) refl

length-replicate : (n v : ℕ) → length (replicate n v) ≡ n
length-replicate zero v = refl
length-replicate (suc n) v = ap suc (length-replicate n v)

get_or-replicate : (n v i : ℕ) → get_or (replicate n v) i 0 ≤ v
get_or-replicate zero v i = omega arith
get_or-replicate (suc n) v zero = omega arith
get_or-replicate (suc n) v (suc i) = get_or-replicate n v i

-- a bank whose registers all hold one value
abbrev uniform : ℕ → Bank
uniform v = record {
  context = record { storage = replicate 18 v };
  neon = replicate 32 v;
  fpscr = v;
  xmlregs = true;
}

uniform-IsBank : (v : ℕ) → v < 2 ^ 32 → IsBank (uniform v)
unfolding stored
uniform-IsBank v h = record {
  storage_length = length-replicate 18 v;
  neon_length = length-replicate 32 v;
  stored_lt = λ i. omega (arith, get_or-replicate 18 v i);
  neon_lt = λ i. omega (arith, get_or-replicate 32 v i);
  fpscr_lt = h;
}

-- the number of r14
abbrev lr_text : Bytes
lr_text = b'e' ∷ []

lr_text-IsArgument : All (IsArgument b'=') lr_text
lr_text-IsArgument = ((omega arith, omega arith), tt)

lr_text-value : hex_to_word lr_text ≡ 14
unfolding hex_to_word hex_to_nib
lr_text-value = refl

read_reg-write_reg_example :
    let answer = reg_answer (uniform 0x8000) 0 (hex_to_word lr_text) in
    let (after, out) = write_reg (uniform 0) (lr_text ++ b'=' ∷ answer) 10 in
    (out ≡ ok_text ∷ [])
    × (read_reg after 0 lr_text 1 ≡ answer ∷ [])
    × (reg_answer after 0 26 ≡ reg_answer (uniform 0) 0 26)
read_reg-write_reg_example =
    read_reg-write_reg (uniform 0) (uniform 0x8000) 0 0 26 lr_text 10 1
      (uniform-IsBank 0 (omega arith)) (uniform-IsBank 0x8000 (omega arith)) refl lr_text-IsArgument
      (omega arith) (inl (omega (arith, lr_text-value)))
      (λ e. absurd (omega (arith, lr_text-value, e))) (omega arith) (omega arith)

-- r14 is answered with its bytes in the debuggee's order, and a dummy register with what `value` held
answers :
    (reg_answer (uniform 0x12345678) 0 14
      ≡ b'7' ∷ b'8' ∷ b'5' ∷ b'6' ∷ b'3' ∷ b'4' ∷ b'1' ∷ b'2' ∷ [])
    × (reg_answer (uniform 0) 0x11 20 ≡ b'1' ∷ b'1' ∷ b'0' ∷ b'0' ∷ b'0' ∷ b'0' ∷ b'0' ∷ b'0' ∷ [])
unfolding reg_answer word_answer whole word_to_hex swap_bytes stored nib_to_hex byte_to_hex str_len
    len_loop
answers = (refl, refl)

-- a packet of 656 characters, one for each digit of the words that g answers with the vector registers
set_regs-answer_example : (set_regs (uniform 1) [] (replicate 656 b'0') 656).1 ≡ err_text ∷ []
set_regs-answer_example = set_regs-answer (uniform 1) [] (replicate 656 b'0') 656 (omega arith)

-- what g answers there has that many words
length-reg_words : length (reg_words (uniform 1)) ≡ 82
unfolding reg_words halves stored
length-reg_words = refl
