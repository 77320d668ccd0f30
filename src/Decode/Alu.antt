-- ===== src/Decode/Alu.antt =====
-- The data processing operations of the architecture, by the opcode in bits 24 to 21.
pub mod Operand
pub mod Opcode
use rpi_stub.Common.{
  ℕ, ◌+◌, ◌-◌, ◌/◌, ◌%◌, ◌^◌, ◌<◌, ◌≡◌, ◌==◌, if◌then◌else◌, bit_and, bit_or, bit_xor, bit_and-mask,
  arith,
}
use rpi_stub.Instr.Word.{bit}
use rpi_stub.Decode.Context.{Context, carry, stored}
use rpi_stub.Decode.Int32.{add32, sub32, not32}

-- The result for the opcodes that have one: SBC and RSC borrow where the carry flag is clear.
unfoldable pub alu : ℕ → ℕ → ℕ → ℕ → ℕ
alu opcode a b flag =
    if opcode == 0
    then bit_and a b
    else if opcode == 1
    then bit_xor a b
    else if opcode == 2
    then (a + 2 ^ 32 - b) % 2 ^ 32
    else if opcode == 3
    then (b + 2 ^ 32 - a) % 2 ^ 32
    else if opcode == 4
    then (a + b) % 2 ^ 32
    else if opcode == 5
    then (a + b + flag) % 2 ^ 32
    else if opcode == 6
    then (a + 2 ^ 32 - b - (1 - flag)) % 2 ^ 32
    else if opcode == 7
    then (b + 2 ^ 32 - a - (1 - flag)) % 2 ^ 32
    else if opcode == 12
    then bit_or a b
    else if opcode == 13
    then b
    else if opcode == 14
    then bit_and a (2 ^ 32 - 1 - b)
    else 2 ^ 32 - 1 - b

pub carry_below : (c : Context) → carry c < 2
unfolding carry bit
carry_below c = omega (arith, bit_and-mask 1 (stored c 16 / 2 ^ 29))

pub adc_lem : (a b flag : ℕ) → add32 (add32 a b) flag ≡ (a + b + flag) % 2 ^ 32
unfolding add32
adc_lem a b flag = omega arith

pub sub_lem : (a b : ℕ) → b < 2 ^ 32 → sub32 a b ≡ (a + 2 ^ 32 - b) % 2 ^ 32
unfolding sub32
sub_lem a b h = omega arith

pub sbc_lem :
    (a b flag : ℕ)
    → b < 2 ^ 32
    → flag < 2
    → add32 (add32 a (not32 b)) flag ≡ (a + 2 ^ 32 - b - (1 - flag)) % 2 ^ 32
unfolding add32 not32
sbc_lem a b flag h hf = omega arith

pub rsc_lem :
    (a b flag : ℕ)
    → a < 2 ^ 32
    → flag < 2
    → add32 (add32 (not32 a) b) flag ≡ (b + 2 ^ 32 - a - (1 - flag)) % 2 ^ 32
unfolding add32 not32
rsc_lem a b flag h hf = omega arith
