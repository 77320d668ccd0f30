-- ===== src/Util/Hex/RoundTrip.antt =====
-- What is printed in hex is read back: nibbles, bytes, words and double words.
use rpi_stub.Common.{
  ℕ, ◌*◌, ◌/◌, ◌%◌, ◌^◌, ◌<◌, ◌≡◌, some, [], ◌∷◌, Bytes, take, bit_and, bit_or, bit_and-mask, arith,
}
use native.Mathlib.Nat.{mod-mod}
use rpi_stub.Common.Int.{pos}
use rpi_stub.Util.Hex.{
  to_char, hex_to_nib, nib_to_hex, hex_to_byte, byte_to_hex, byte_at, then_at_2, hex_to_word,
  hex_to_dword, word_to_hex, dword_to_hex,
}
use rpi_stub.Util.Hex.Value.{nibbles, shift_in, hex_to_word-value}

-- A nibble is read back from its digit.
pub hex_to_nib-nib_to_hex : (v : ℕ) → v < 16 → hex_to_nib (to_char (nib_to_hex (pos v))) ≡ some v
unfolding hex_to_nib nib_to_hex
hex_to_nib-nib_to_hex v h = ground arith

-- the digit that a nibble is printed as
abbrev pub digit : ℕ → ℕ
digit v = to_char (nib_to_hex (pos v))

pub byte_to_hex_lem : (b : ℕ) → byte_to_hex b ≡ digit (b / 16 % 16) ∷ digit (b % 16) ∷ 0 ∷ []
unfolding byte_to_hex
byte_to_hex_lem b = rw (bit_and-mask 4 (b / 2 ^ 4), bit_and-mask 4 b)

pub nibbles-cons :
    (c : ℕ) (p : Bytes) {v : ℕ} → hex_to_nib c ≡ some v → nibbles (c ∷ p) ≡ v ∷ nibbles p
unfolding nibbles
nibbles-cons c p e = rw (e, nibbles)

hex_to_byte_two :
    (c d hi lo : ℕ) (p : Bytes)
    → hex_to_nib c ≡ some hi
    → hex_to_nib d ≡ some lo
    → hex_to_byte (c ∷ d ∷ p) ≡ bit_or (hi * 16 % 2 ^ 8) (bit_and lo 0x0f)
unfolding hex_to_byte
hex_to_byte_two c d hi lo p e f = rw (e, f, hex_to_byte)

-- A byte is read back from its two digits, whatever stands behind them.
pub hex_to_byte-byte_to_hex :
    (b : ℕ) (rest : Bytes) → b < 256 → hex_to_byte (then_at_2 (byte_to_hex b) rest) ≡ b
hex_to_byte-byte_to_hex b rest h =
    let hi = b / 16 % 16 in
    let lo = b % 16 in
    rw
      (
        byte_to_hex_lem b,
        hex_to_byte_two (digit hi) (digit lo) hi lo rest (hex_to_nib-nib_to_hex hi (omega arith))
            (hex_to_nib-nib_to_hex lo (omega arith)),
        shift_in 8 hi lo (omega arith) (omega arith),
      )
      (omega arith)

byte_at_lem : (w s : ℕ) → byte_at w s ≡ w / 2 ^ s % 256
byte_at_lem w s = rw (bit_and-mask 8 (w / 2 ^ s)) (mod-mod (w / 2 ^ s) 256)

pub nibbles-byte_to_hex :
    (b : ℕ) (rest : Bytes)
    → nibbles (then_at_2 (byte_to_hex b) rest) ≡ b / 16 % 16 ∷ b % 16 ∷ nibbles rest
nibbles-byte_to_hex b rest = rw (
  byte_to_hex_lem b,
  nibbles-cons (digit (b / 16 % 16)) _ (hex_to_nib-nib_to_hex (b / 16 % 16) (omega arith)),
  nibbles-cons (digit (b % 16)) rest (hex_to_nib-nib_to_hex (b % 16) (omega arith)),
)

-- `util_hex_to_word` reads back every word that `util_word_to_hex` prints, and `util_hex_to_dword`
-- every double word that `util_dword_to_hex` prints.
pub hex_to_word-word_to_hex :
    (w d : ℕ)
    → w < 2 ^ 32
    → d < 2 ^ 64
    → (hex_to_word (word_to_hex w) ≡ w) × (hex_to_dword (dword_to_hex d) ≡ d)
unfolding word_to_hex dword_to_hex
hex_to_word-word_to_hex w d hw hd = (
  rw ((hex_to_word-value (word_to_hex w)).0)
      (simp (nibbles-byte_to_hex, byte_at_lem, take) (omega arith)),
  rw ((hex_to_word-value (dword_to_hex d)).1)
      (simp (nibbles-byte_to_hex, byte_at_lem) (omega arith)),
)
