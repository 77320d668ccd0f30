-- ===== src/Instr/Word.antt =====
-- Fields of a 32-bit word (instr_comm.c) and halves and bytes of one (instr_util.c). An `int` is
-- kept as the 32 bits of its two's complement.
use rpi_stub.Common.{
  ℕ, zero, suc, ◌+◌, ◌-◌, ◌*◌, ◌/◌, ◌%◌, ◌^◌, ◌<◌, ◌≡◌, refl, ap, ◌∙◌, sym, ◌==◌, ltb,
  if◌then◌else◌, bit_and, bit_or, bit_and-mask, bit_and-field, bit_or-field, arith,
}

-- `bit`
unfoldable pub bit : ℕ → ℕ → ℕ
bit value position = bit_and (value / 2 ^ position) 1

-- `bitrng`, for `lo <= hi < lo + 31`
unfoldable pub bitrng : ℕ → ℕ → ℕ → ℕ
bitrng value hi lo = bit_and (value / 2 ^ lo) (2 ^ (hi - lo + 1) - 1)

-- the loop of `bits`, with the rounds left
unfoldable pub bits_loop : ℕ → ℕ → ℕ → ℕ → ℕ → ℕ → ℕ
bits_loop zero value mask i j retval = retval
bits_loop (suc n) value mask i j retval =
    let tmp = bit_and (bit_and mask (2 ^ i)) value / 2 ^ i in
    let next = bits_loop n value mask (i + 1) (j + 1) (bit_or retval (tmp * 2 ^ j % 2 ^ 32)) in
    let skip = bits_loop n value mask (i + 1) j retval in
    if bit_and mask (2 ^ i) == 0 then skip else next

-- `bits`
unfoldable pub bits : ℕ → ℕ → ℕ
unfolding bits_loop
bits value mask = bits_loop 32 value mask 0 0 0

-- `sx32`
unfoldable pub sx32 : ℕ → ℕ → ℕ → ℕ
unfolding bit bitrng
sx32 val hi lo = bit_or (if bit val hi == 0 then 0 else 2 ^ 32 - 2 ^ hi) (bitrng val hi lo)

-- `instr_util_signx_short` and `instr_util_signx_byte`
unfoldable pub signx_short : ℕ → ℕ
signx_short val = if bit_and val 0x8000 == 0 then bit_and val 0xffff else bit_or val 0xffff0000

unfoldable pub signx_byte : ℕ → ℕ
signx_byte val = if bit_and val 0x80 == 0 then bit_and val 0xff else bit_or val 0xffffff00

-- `instr_util_shgethi` and `instr_util_shgetlo`: the conversion of a `short int` to an `int`
abbrev pub from_short : ℕ → ℕ
from_short v = if ltb v 0x8000 then v else v + 0xffff0000

unfoldable pub shgethi : ℕ → ℕ
shgethi val = from_short (bit_and (val / 2 ^ 16) 0xffff)

unfoldable pub shgetlo : ℕ → ℕ
shgetlo val = from_short (bit_and val 0xffff)

-- `instr_util_ustuffs16`, which on bits is `instr_util_ustuffu16`
unfoldable pub ustuffu16 : ℕ → ℕ → ℕ
ustuffu16 val1 val2 = bit_or (bit_and (val1 * 2 ^ 16 % 2 ^ 32) 0xffff0000) (bit_and val2 0xffff)

-- `instr_util_ustuffu8`
unfoldable pub ustuffu8 : ℕ → ℕ → ℕ → ℕ → ℕ
ustuffu8 byte3 byte2 byte1 byte0 =
    bit_or
      (bit_or
        (bit_or (bit_and (byte3 * 2 ^ 24 % 2 ^ 32) 0xff000000)
          (bit_and (byte2 * 2 ^ 16 % 2 ^ 32) 0x00ff0000))
        (bit_and (byte1 * 2 ^ 8 % 2 ^ 32) 0x0000ff00))
      (bit_and byte0 0x000000ff)

-- `instr_util_ustuffs8`, whose second and third statement assign
unfoldable pub ustuffs8 : ℕ → ℕ → ℕ → ℕ → ℕ
ustuffs8 byte3 byte2 byte1 byte0 =
    bit_or (bit_and (byte1 * 2 ^ 8 % 2 ^ 32) 0x0000ff00) (bit_and byte0 0x000000ff)

-- `instr_util_swaph`
unfoldable pub swaph : ℕ → ℕ
swaph val = bit_or (bit_and (val * 2 ^ 16 % 2 ^ 32) 0xffff0000) (bit_and (val / 2 ^ 16) 0xffff)

-- `instr_util_rorb`: the loop over `count`
unfoldable pub rorb : ℕ → ℕ → ℕ
rorb zero val = val
rorb (suc n) val = rorb n (bit_or (bit_and val 0xff * 2 ^ 24) (bit_and (val / 2 ^ 8) 0x00ffffff))

stuffed : (a b : ℕ) → ustuffu16 a b ≡ a % 2 ^ 16 * 2 ^ 16 + b % 2 ^ 16
unfolding ustuffu16
stuffed a b =
    let high : bit_and (a * 2 ^ 16 % 2 ^ 32) 0xffff0000 ≡ a % 2 ^ 16 * 2 ^ 16 =
      rw (bit_and-field 16 16 (a * 2 ^ 16 % 2 ^ 32)) (omega arith) in
    rw (high, bit_and-mask 16 b) (bit_or-field 16 (a % 2 ^ 16) (b % 2 ^ 16) (omega arith))

halves :
    (x y : ℕ)
    → x < 2 ^ 16
    → y < 2 ^ 16
    → (from_short ((x * 2 ^ 16 + y) / 2 ^ 16 % 2 ^ 16) ≡ from_short x)
      × (from_short ((x * 2 ^ 16 + y) % 2 ^ 16) ≡ from_short y)
halves x y hx hy =
    let high : (x * 2 ^ 16 + y) / 2 ^ 16 % 2 ^ 16 ≡ x = omega arith in
    let low : (x * 2 ^ 16 + y) % 2 ^ 16 ≡ y = omega arith in (ap from_short high, ap from_short low)

-- `instr_util_ustuffu16` puts its halves where `instr_util_shgethi` and `instr_util_shgetlo` find
-- them: halves below 2^15 come back as they are, and others sign-extended.
pub shget-ustuffu16 :
    (a b : ℕ)
    → (shgethi (ustuffu16 a b) ≡ from_short (a % 2 ^ 16))
      × (shgetlo (ustuffu16 a b) ≡ from_short (b % 2 ^ 16))
unfolding shgethi shgetlo
shget-ustuffu16 a b =
    rw (bit_and-mask 16 (ustuffu16 a b / 2 ^ 16), bit_and-mask 16 (ustuffu16 a b), stuffed a b)
      (halves (a % 2 ^ 16) (b % 2 ^ 16) (omega arith) (omega arith))

swaph_lem : (v : ℕ) → swaph v ≡ v % 2 ^ 16 * 2 ^ 16 + v / 2 ^ 16 % 2 ^ 16
unfolding swaph
swaph_lem v =
    let high : bit_and (v * 2 ^ 16 % 2 ^ 32) 0xffff0000 ≡ v % 2 ^ 16 * 2 ^ 16 =
      rw (bit_and-field 16 16 (v * 2 ^ 16 % 2 ^ 32)) (omega arith) in
    rw (high, bit_and-mask 16 (v / 2 ^ 16))
      (bit_or-field 16 (v % 2 ^ 16) (v / 2 ^ 16 % 2 ^ 16) (omega arith))

-- Swapping the halves of a word twice gives the word.
pub swaph-swaph : (v : ℕ) → v < 2 ^ 32 → swaph (swaph v) ≡ v
swaph-swaph v h = rw (swaph_lem (swaph v), swaph_lem v) (omega arith)

rorb_one : (n v : ℕ) → rorb (suc n) v ≡ rorb n (v % 2 ^ 8 * 2 ^ 24 + v / 2 ^ 8 % 2 ^ 24)
unfolding rorb
rorb_one n v = rw (
  bit_and-mask 8 v,
  bit_and-mask 24 (v / 2 ^ 8),
  bit_or-field 24 (v % 2 ^ 8) (v / 2 ^ 8 % 2 ^ 24) (omega arith),
)

rorb_zero : (v : ℕ) → rorb 0 v ≡ v
unfolding rorb
rorb_zero v = refl

abbrev turned : ℕ → ℕ
turned v = v % 2 ^ 8 * 2 ^ 24 + v / 2 ^ 8 % 2 ^ 24

rorb_two : (n v : ℕ) → rorb (suc (suc n)) v ≡ rorb n (turned (turned v))
rorb_two n v = rorb_one (suc n) v ∙ rorb_one n (turned v)

turned_two : (v : ℕ) → v < 2 ^ 32 → turned (turned v) ≡ v % 2 ^ 16 * 2 ^ 16 + v / 2 ^ 16 % 2 ^ 16
turned_two v h = omega arith

-- Rotating a word right by two bytes swaps its halves, and by four bytes leaves it as it is.
pub rorb-swaph : (v : ℕ) → v < 2 ^ 32 → (rorb 2 v ≡ swaph v) × (rorb 4 v ≡ v)
rorb-swaph v h =
    let two = turned_two v h in
    let four : turned (turned (turned (turned v))) ≡ v =
      ap (λ w. turned (turned w)) two ∙ turned_two _ (omega arith) ∙ omega arith in
    (
      rorb_two 0 v ∙ rorb_zero _ ∙ two ∙ sym (swaph_lem v),
      rorb_two 2 v ∙ rorb_two 0 (turned (turned v)) ∙ rorb_zero _ ∙ four,
    )
