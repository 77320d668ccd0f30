-- ===== src/Decode/Divide/Round.antt =====
-- SDIV (`arm_core_data_div`, ARM_decode_table.c): the quotient of operands of different signs, which
-- is worked out by half steps, is rounded towards 0.
use rpi_stub.Common.{
  ℕ, ◌-◌, ◌*◌, ◌/◌, ◌%◌, ◌^◌, ◌≤◌, ◌<◌, ◌≡◌, ◌≢◌, refl, ap, ◌∙◌, sym, false, ◌==◌, ltb,
  bit_and-mask, inl, inr, Bool-cases, arith,
}
use native.Mathlib.Nat.{div-div-eq-div-mul, mul_comm, div-le_self}
use rpi_stub.Instr.Word.{bit}
use rpi_stub.Decode.Int32.{add32, shl32, asr32, div32, size}
use rpi_stub.Decode.Divide.{signed_quotient}

half_steps : (x s : ℕ) → 2 * x / s / 2 ≡ x / s
half_steps x s =
    let e : 2 * x / 2 ≡ x = omega arith in
    div-div-eq-div-mul (2 * x) s 2
    ∙ ap (λ t. 2 * x / t) (mul_comm s 2)
    ∙ sym (div-div-eq-div-mul (2 * x) 2 s)
    ∙ ap (λ t. t / s) e

-- a half step up, and half
rounded :
    (q : ℕ) → q ≤ 2 ^ 31 → asr32 (add32 ((2 ^ 32 - q) % 2 ^ 32) 1) 1 ≡ (2 ^ 32 - q / 2) % 2 ^ 32
unfolding asr32 add32
rounded q h = ground arith

-- the quotient of operands of different signs
div32_opposite :
    (x y : ℕ)
    → bit x 31 ≢ bit y 31
    → x < 2 ^ 32
    → y < 2 ^ 32
    → div32 x y ≡ (2 ^ 32 - size x / size y) % 2 ^ 32
unfolding div32 size bit
div32_opposite x y signs hx hy =
    let sx = bit_and-mask 1 (x / 2 ^ 31) in
    let sy = bit_and-mask 1 (y / 2 ^ 31) in
    elim (Bool-cases (ltb x (2 ^ 31))) [
      | inl px ↦ elim (Bool-cases (ltb y (2 ^ 31))) [
        | inl py ↦ absurd (ground (arith, signs, sx, sy))
        | inr py ↦ rw (px, py) refl
      ]
      | inr px ↦ elim (Bool-cases (ltb y (2 ^ 31))) [
        | inl py ↦ rw (px, py) refl
        | inr py ↦ absurd (ground (arith, signs, sx, sy))
      ]
    ]

doubled :
    (x : ℕ)
    → x < 2 ^ 32
    → size x < 2 ^ 30
    → (size (shl32 x 1) ≡ 2 * size x) × (bit (shl32 x 1) 31 ≡ bit x 31)
unfolding size shl32 bit
doubled x h small = (
  ground arith,
  rw (bit_and-mask 1 (x * 2 ^ 1 % 2 ^ 32 / 2 ^ 31), bit_and-mask 1 (x / 2 ^ 31)) (ground arith),
)

shl32_below : (x n : ℕ) → shl32 x n < 2 ^ 32
unfolding shl32
shl32_below x n = omega arith

differ : (x y : ℕ) → (x == y) ≡ false → x ≢ y
differ x y h = ground arith

half_steps_opposite :
    (x y : ℕ)
    → x < 2 ^ 32
    → y < 2 ^ 32
    → size x < 2 ^ 30
    → bit x 31 ≢ bit y 31
    → asr32 (add32 (div32 (shl32 x 1) y) 1) 1 ≡ div32 x y
half_steps_opposite x y hx hy small signs =
    let (twice, sign) = doubled x hx small in
    let signs' : bit (shl32 x 1) 31 ≢ bit y 31 = λ e. signs (sym sign ∙ e) in
    let whole : 2 * size x / size y ≤ 2 * size x = div-le_self (2 * size x) (size y) in
    let above = div32_opposite (shl32 x 1) y signs' (shl32_below x 1) hy in
    let half = half_steps (size x) (size y) in
    rw (above, twice, rounded (2 * size x / size y) (omega arith), half)
      (sym (div32_opposite x y signs hx hy))

-- For a dividend of less than 2^30 in size and any divisor, the quotient that SDIV into the PC works
-- out is that of the division of `int`, which is rounded towards 0.
pub signed_quotient-div32 :
    (x y : ℕ) → x < 2 ^ 32 → y < 2 ^ 32 → size x < 2 ^ 30 → signed_quotient x y ≡ div32 x y
unfolding signed_quotient
signed_quotient-div32 x y hx hy small = elim (Bool-cases (bit x 31 == bit y 31)) [
  | inl same ↦ rw same refl
  | inr other ↦ rw other (half_steps_opposite x y hx hy small (differ _ _ other))
]
