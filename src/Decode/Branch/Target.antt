-- ===== src/Decode/Branch/Target.antt =====
-- Where B and BL lead: from the table (ARM_decode_table_data.h) by `ARM_decoder_dispatch` and
-- `arm_branch` (ARM_decode_table.c) to `next_address` (instr.c).
use rpi_stub.Common.{
  ℕ, ◌+◌, ◌-◌, ◌*◌, ◌/◌, ◌%◌, ◌^◌, ◌≡◌, ◌≢◌, refl, ap, ◌==◌, if◌then◌else◌, ltb, bit_and, bit_or,
  bit_and-mask, bit_and-field, bit_or-shift, bit_or_zero, some, arith, ◌⊎◌, inl, inr,
}
use rpi_stub.Instr.Next.{NextAddr}
use rpi_stub.Instr.Word.{bit, bitrng, sx32}
use rpi_stub.Decode.Extra.{Extra, Decoder, branch, arm_bra_b_lbl, arm_bra_bl_lbl}
use rpi_stub.Decode.Row.{entry}
use rpi_stub.Decode.Narrow.{candidate, dispatch-known}
use rpi_stub.Instr.Condition.{field}
use rpi_stub.Decode.Search.{dispatch, fits}

-- the distance of a branch: four times the two's complement of the lowest 24 bits
unfoldable pub distance : ℕ → ℕ
distance instr =
    if ltb (instr % 2 ^ 24) (2 ^ 23)
    then instr % 2 ^ 24 * 4
    else 2 ^ 32 - (2 ^ 24 - instr % 2 ^ 24) * 4

sx32_fields :
    (x : ℕ) → sx32 x 23 0 ≡ bit_or (if x / 2 ^ 23 % 2 == 0 then 0 else 511 * 2 ^ 23) (x % 2 ^ 24)
unfolding sx32 bit bitrng
sx32_fields x =
    let e : x / 2 ^ 0 ≡ x = omega arith in
    rw (bit_and-mask 1 (x / 2 ^ 23), e, bit_and-mask 24 x) refl

sign_extended :
    (x : ℕ) → x / 2 ^ 23 % 2 ≡ 1 → bit_or (511 * 2 ^ 23) (x % 2 ^ 24) ≡ 511 * 2 ^ 23 + x % 2 ^ 23
sign_extended x h =
    let top : x % 2 ^ 24 / 2 ^ 23 ≡ 1 = omega arith in
    omega (arith, bit_or-shift 23 511 (x % 2 ^ 24), ap (λ t. bit_or 511 t) top)

sx32_plus : (x : ℕ) → x / 2 ^ 23 % 2 ≡ 0 → sx32 x 23 0 ≡ x % 2 ^ 24
sx32_plus x h = rw (sx32_fields x, h) (bit_or_zero (x % 2 ^ 24))

sx32_minus : (x : ℕ) → x / 2 ^ 23 % 2 ≡ 1 → sx32 x 23 0 ≡ 511 * 2 ^ 23 + x % 2 ^ 23
sx32_minus x h = rw (sx32_fields x, h) (sign_extended x h)

half : (x : ℕ) → (x / 2 ^ 23 % 2 ≡ 0) ⊎ (x / 2 ^ 23 % 2 ≡ 1)
half x = omega arith

-- The shifted offset of a branch, as a 32-bit word.
pub sx32-distance : (x : ℕ) → sx32 x 23 0 * 4 % 2 ^ 32 ≡ distance x
unfolding distance
sx32-distance x = elim (half x) [
  | inl plus ↦ rw (sx32_plus x plus) (ground arith)
  | inr minus ↦ rw (sx32_minus x minus) (ground arith)
]

known_bits : (instr v : ℕ) → instr / 2 ^ 24 % 16 ≡ v → bit_and instr 0x0f000000 ≡ v * 2 ^ 24
known_bits instr v h = let e = bit_and-field 24 4 instr in omega arith

b_left : candidate 0x0f000000 0x0a000000 ≡ some (entry 0x0A000000 0x0F000000 arm_bra_b_lbl branch)
unfolding candidate fits
b_left = refl

bl_left : candidate 0x0f000000 0x0b000000 ≡ some (entry 0x0B000000 0x0F000000 arm_bra_bl_lbl branch)
unfolding candidate fits
bl_left = refl

-- An instruction with bits 27 to 24 at 10 or 11, under any condition but 15, is decoded as B or as
-- BL, whatever the decoding functions are.
pub dispatch-branch :
    (run : Decoder → ℕ → Extra → NextAddr) (instr : ℕ)
    → field instr ≢ 15
    → ((instr / 2 ^ 24 % 16 ≡ 10) → dispatch run instr ≡ run branch instr arm_bra_b_lbl)
      × ((instr / 2 ^ 24 % 16 ≡ 11) → dispatch run instr ≡ run branch instr arm_bra_bl_lbl)
dispatch-branch run instr c = (
  λ h. dispatch-known run 0x0f000000 0x0a000000 instr _ b_left c (known_bits instr 10 h) refl refl,
  λ h. dispatch-known run 0x0f000000 0x0b000000 instr _ bl_left c (known_bits instr 11 h) refl refl,
)
