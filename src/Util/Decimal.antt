-- ===== src/Util/Decimal.antt =====
-- Decimal numbers (util.c): `util_word_to_dec` and `util_read_dec`.
pub mod Digits
pub mod RoundTrip
pub mod Range
use rpi_stub.Common.{
  ℕ, zero, suc, ◌+◌, ◌-◌, ◌*◌, ◌/◌, ◌%◌, ◌||◌, Option, none, some, Bool, true, false, [], ◌∷◌, ◌++◌,
  Bytes, set, replicate, ltb, ◌==◌, if◌then◌else◌,
}
use rpi_stub.Common.Int.{ℤ, pos, neg}
use mathlib.Core.Option

-- `while (w > 0) { …; dig_array[i--] = … }`. The second argument is `i + 1`, the room that is left in
-- front; `none` is a write before the array.
unfoldable pub dec_fill : ℕ → ℕ → Bytes → Option Bytes
dec_fill w zero a = if w == 0 then some a else none
dec_fill w (suc i) a = elim (w == 0) [
  | true ↦ some a
  | false ↦ dec_fill (w / 10) i (set a i (w % 10 + b'0'))
]

-- `while ((dig_array[i] == '0') && (i < 9)) i++;`, with the rounds that `i < 9` leaves
unfoldable pub skip_zeros : ℕ → Bytes → Bytes
skip_zeros zero a = a
skip_zeros (suc k) [] = []
skip_zeros (suc k) (c ∷ a) = if c == b'0' then skip_zeros k a else c ∷ a

-- `while (dig_array[i] != '\0') *(dst++) = dig_array[i++]; *dst = '\0';`
unfoldable pub copy_string : Bytes → Bytes
copy_string [] = 0 ∷ []
copy_string (c ∷ a) = if c == 0 then 0 ∷ [] else c ∷ copy_string a

-- `util_word_to_dec`
unfoldable pub word_to_dec : ℕ → Option Bytes
unfolding dec_fill skip_zeros copy_string
word_to_dec w =
    Option.map (λ a. copy_string (skip_zeros 9 a)) (dec_fill w 10 (replicate 10 b'0' ++ 0 ∷ []))

-- `undefined` is a signed overflow in `tmp2`, which C leaves undefined; `read r n` is `*result = r`
-- and the return value `n`.
pub data ReadDec : Type 0 where
  undefined : ReadDec
  read : ℤ → ℕ → ReadDec

abbrev pub int_max : ℕ
int_max = 0x7fffffff

-- the exit of the loop, with what follows it
abbrev pub signed_result : Bool → ℕ → ℕ → ReadDec
signed_result false result i = read (pos result) i
signed_result true result i = if i == 1 then read (pos 0) 0 else read (neg result) i

-- `long_max` is the largest `long`, the type of `tmp2`.
module _ (long_max : ℕ) where
  -- The arguments are the sign, the text at `str`, `tmp2`, `*result` and `i`.
  unfoldable pub read_loop : Bool → Bytes → ℕ → ℕ → ℕ → ReadDec
  read_loop minus [] tmp2 result i = signed_result minus result i
  read_loop minus (c ∷ str) tmp2 result i =
      let next = tmp2 * 10 + (c - b'0') in
      let more = read_loop minus str next next (i + 1) in
      if c == 0
      then signed_result minus result i
      else if ltb c b'0' || ltb 9 (c - b'0')
      then signed_result minus result i
      else if ltb long_max next
      then undefined
      else if ltb int_max next
      then signed_result minus result i
      else more

  -- `util_read_dec`
  unfoldable pub read_dec : Bytes → ReadDec
  unfolding read_loop
  read_dec [] = read_loop false [] 0 0 0
  read_dec (c ∷ str) =
      if c == b'-' then read_loop true str 0 0 1 else read_loop false (c ∷ str) 0 0 0
