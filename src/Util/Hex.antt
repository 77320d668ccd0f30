-- ===== src/Util/Hex.antt =====
-- Hex digits, and numbers read and printed in hex (util.c).
pub mod RoundTrip
pub mod Value
use rpi_stub.Common.{
  ℕ, zero, suc, ◌+◌, ◌-◌, ◌*◌, ◌/◌, ◌%◌, ◌^◌, ◌||◌, Option, none, some, [], ◌∷◌, ◌++◌, Bytes, take,
  drop, ltb, ◌==◌, if◌then◌else◌, bit_and, bit_or,
}
use rpi_stub.Common.Int.{ℤ, pos, negsuc}

-- `*p`
abbrev pub peek : Bytes → ℕ
peek [] = 0
peek (c ∷ p) = c

-- `util_hex_to_nib`; `none` is its -1.
unfoldable pub hex_to_nib : ℕ → Option ℕ
hex_to_nib ch =
    if ch == b'a' || ch == b'A'
    then some 10
    else if ch == b'b' || ch == b'B'
    then some 11
    else if ch == b'c' || ch == b'C'
    then some 12
    else if ch == b'd' || ch == b'D'
    then some 13
    else if ch == b'e' || ch == b'E'
    then some 14
    else if ch == b'f' || ch == b'F'
    then some 15
    else if ltb ch b'0' || ltb 9 (ch - b'0')
    then none
    else some (ch - b'0')

-- `util_nib_to_hex`; `none` is its -1.
unfoldable pub nib_to_hex : ℤ → Option ℕ
nib_to_hex (negsuc n) = none
nib_to_hex (pos n) =
    if ltb n 10 then some (n + 0x30) else if ltb n 16 then some (n + 0x57) else none

-- the store of an `int` result into a `char`: -1 becomes 0xff
abbrev pub to_char : Option ℕ → ℕ
to_char none = 0xff
to_char (some c) = c

-- `util_hex_to_byte`
unfoldable pub hex_to_byte : Bytes → ℕ
hex_to_byte p = elim (hex_to_nib (peek p)) [
  | none ↦ 0
  | some hi ↦ elim (hex_to_nib (peek (drop 1 p))) [
    | none ↦ hi
    | some lo ↦ bit_or (hi * 16 % 2 ^ 8) (bit_and lo 0x0f)
  ]
]

-- the loop of `util_hex_to_word` and `util_hex_to_dword`, on an unsigned type of `w` bits
unfoldable pub hex_loop : ℕ → ℕ → Bytes → ℕ → ℕ
hex_loop w zero p acc = acc
hex_loop w (suc i) p acc = elim (hex_to_nib (peek p)) [
  | none ↦ acc
  | some v ↦ hex_loop w i (drop 1 p) (bit_or (acc * 16 % 2 ^ w) (bit_and v 0x0f))
]

-- `util_hex_to_word`
unfoldable pub hex_to_word : Bytes → ℕ
unfolding hex_loop
hex_to_word p = hex_loop 32 8 p 0

-- `util_hex_to_dword`
unfoldable pub hex_to_dword : Bytes → ℕ
unfolding hex_loop
hex_to_dword p = hex_loop 64 16 p 0

-- `util_byte_to_hex`
unfoldable pub byte_to_hex : ℕ → Bytes
byte_to_hex b =
    to_char (nib_to_hex (pos (bit_and (b / 2 ^ 4) 0x0f)))
    ∷ to_char (nib_to_hex (pos (bit_and b 0x0f)))
    ∷ 0
    ∷ []

-- `util_byte_to_hex(dst, b); dst += 2;` and what is then written over the terminator
abbrev pub then_at_2 : Bytes → Bytes → Bytes
then_at_2 written rest = take 2 written ++ rest

-- `(unsigned char)((w >> s) & 0xff)`
abbrev pub byte_at : ℕ → ℕ → ℕ
byte_at w s = bit_and (w / 2 ^ s) 0xff % 2 ^ 8

-- `util_word_to_hex`
unfoldable pub word_to_hex : ℕ → Bytes
word_to_hex w = then_at_2 (byte_to_hex (byte_at w 24)) (
    then_at_2 (byte_to_hex (byte_at w 16))
      (then_at_2 (byte_to_hex (byte_at w 8)) (then_at_2 (byte_to_hex (byte_at w 0)) (0 ∷ []))))

-- `util_dword_to_hex`
unfoldable pub dword_to_hex : ℕ → Bytes
dword_to_hex d = then_at_2 (byte_to_hex (byte_at d 56)) (
    then_at_2 (byte_to_hex (byte_at d 48)) (
      then_at_2 (byte_to_hex (byte_at d 40)) (
        then_at_2 (byte_to_hex (byte_at d 32)) (
          then_at_2 (byte_to_hex (byte_at d 24)) (
            then_at_2 (byte_to_hex (byte_at d 16)) (
              then_at_2 (byte_to_hex (byte_at d 8))
                (then_at_2 (byte_to_hex (byte_at d 0)) (0 ∷ []))))))))
