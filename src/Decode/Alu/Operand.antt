-- ===== src/Decode/Alu/Operand.antt =====
-- The operands of data processing by the architecture's rules, against those of ARM_decode_table.c.
use rpi_stub.Common.{
  ℕ, zero, suc, ◌+◌, ◌-◌, ◌*◌, ◌/◌, ◌%◌, ◌^◌, ◌≤◌, ◌<◌, ◌≡◌, ◌≢◌, refl, sym, ap, ◌∙◌, ◌⊎◌, inl, inr,
  Bool-cases, ltb, ◌==◌, if◌then◌else◌, bit_or-field, bit_and-mask, bit_or_comm, arith, all_below,
  all_below_sound, true, false,
}
use native.Mathlib.Nat.{
  div-eq_of_lt-le, div-add-mod, div-eq_of_lt, div-lt_iff_lt-mul, pow-le-pow_right, one-le-pow,
  mod-lt, div-le_self,
}
use rpi_stub.Decode.Context.{Context, stored, operand, carry}
use rpi_stub.Instr.Word.{bit, bitrng}
use rpi_stub.Decode.Int32.{add32, shl32, asr32}
use rpi_stub.Decode.Shift.{shift_imm, with_carry}

-- the value of a register: the PC reads 8 ahead
unfoldable pub ahead : Context → ℕ → ℕ
ahead c r = if r == 15 then (stored c 15 + 8) % 2 ^ 32 else stored c r

pub operand-ahead : (c : Context) (r : ℕ) → operand c r ≡ ahead c r
unfolding operand ahead add32
operand-ahead c r = ground arith

-- the carry flag of the saved status
unfoldable pub carry_flag : Context → ℕ
carry_flag c = stored c 16 / 2 ^ 29 % 2

pub carry-carry_flag : (c : Context) → carry c ≡ carry_flag c
unfolding carry bit carry_flag
carry-carry_flag c = bit_and-mask 1 (stored c 16 / 2 ^ 29)

pub carry_flag-lt : (c : Context) → carry_flag c < 2
unfolding carry_flag
carry_flag-lt c = omega arith

pub bitrng-digits : (x hi lo : ℕ) → bitrng x hi lo ≡ x / 2 ^ lo % 2 ^ (hi - lo + 1)
unfolding bitrng
bitrng-digits x hi lo = bit_and-mask (hi - lo + 1) (x / 2 ^ lo)

-- A word shifted by an immediate, for all but ROR: LSL; LSR and ASR, where 0 means 32, and ASR
-- fills in the sign; RRX, which shifts in the carry flag.
unfoldable pub shifted : ℕ → ℕ → ℕ → ℕ → ℕ
shifted flag x kind n =
    let places = if n == 0 then 32 else n in
    if kind == 0
    then x * 2 ^ n % 2 ^ 32
    else if kind == 1
    then x / 2 ^ places
    else if kind == 2
    then x / 2 ^ places + x / 2 ^ 31 * (2 ^ 32 - 2 ^ (32 - places))
    else x / 2 + flag * 2 ^ 31

-- the quotient of a complement
spread : (p s d : ℕ) → p * (s + 1 + d) ≡ s * p + p + p * d
spread p s d = grind arith

complement_at : (p s d r : ℕ) → r < p → (p * (s + 1 + d) - 1 - (p * d + r)) / p ≡ s
complement_at p s d r h =
    let e = spread p s d in
    let top : (s + 1) * p ≡ s * p + p = grind arith in div-eq_of_lt-le p (omega arith) (omega arith)

quotient_below : (p q x : ℕ) → 1 ≤ p → x < p * q → x / p < q
quotient_below p q x hp h =
    (div-lt_iff_lt-mul hp).1 (let e : p * q ≡ q * p = grind arith in omega arith)

complement_div : (p q x : ℕ) → 1 ≤ p → x < p * q → (p * q - 1 - x) / p ≡ q - 1 - x / p
complement_div p q x hp h =
    let below = quotient_below p q x hp h in
    let parts : q ≡ (q - 1 - x / p) + 1 + x / p = omega arith in
    let whole : x ≡ p * (x / p) + x % p = sym (div-add-mod x p) in
    ap (λ a. (p * a - 1 - x) / p) parts
    ∙ ap (λ b. (p * (q - 1 - x / p + 1 + x / p) - 1 - b) / p) whole
    ∙ complement_at p (q - 1 - x / p) (x / p) (x % p) (mod-lt x hp)

powers_table : all_below 32 (λ n. 2 ^ n * 2 ^ (32 - n) == 2 ^ 32) ≡ true
unfolding all_below
powers_table = refl

powers : (n : ℕ) → n < 32 → 2 ^ n * 2 ^ (32 - n) ≡ 2 ^ 32
powers n h =
    let e = all_below_sound 32 (λ m. 2 ^ m * 2 ^ (32 - m) == 2 ^ 32) n powers_table h in
    ground (arith, e)

asr_negative :
    (n x : ℕ) → n < 32 → 2 ^ 31 ≤ x → x < 2 ^ 32 → asr32 x n ≡ x / 2 ^ n + (2 ^ 32 - 2 ^ (32 - n))
unfolding asr32
asr_negative n x hn hx h =
    let product = powers n hn in
    let some_places : 1 ≤ 2 ^ n = one-le-pow n 2 (omega arith) in
    let inside : x < 2 ^ n * 2 ^ (32 - n) = rw product h in
    let below = quotient_below (2 ^ n) (2 ^ (32 - n)) x some_places inside in
    let small : 2 ^ (32 - n) ≤ 2 ^ 32 =
      pow-le-pow_right {n = 2} (omega arith) {i = 32 - n} {j = 32} (omega arith) in
    let e : (2 ^ 32 - 1 - x) / 2 ^ n ≡ 2 ^ (32 - n) - 1 - x / 2 ^ n =
      rw product at (complement_div (2 ^ n) (2 ^ (32 - n)) x some_places inside) in
    let negative : ltb x (2 ^ 31) ≡ false = ground arith in rw (negative, e) (omega arith)

asr_positive : (n x : ℕ) → x < 2 ^ 31 → asr32 x n ≡ x / 2 ^ n
unfolding asr32
asr_positive n x h = ground arith

-- an arithmetic shift, by the sign
asr-shifted :
    (n x : ℕ) → n < 32 → x < 2 ^ 32 → asr32 x n ≡ x / 2 ^ n + x / 2 ^ 31 * (2 ^ 32 - 2 ^ (32 - n))
asr-shifted n x hn h = elim (Bool-cases (ltb x (2 ^ 31))) [
  | inl e ↦
      let sign : x / 2 ^ 31 ≡ 0 = ground arith in
      rw sign (asr_positive n x (ground arith) ∙ omega arith)
  | inr e ↦
      let sign : x / 2 ^ 31 ≡ 1 = ground arith in
      rw sign (asr_negative n x hn (ground arith) h ∙ omega arith)
]

asr_32 : (x : ℕ) → x < 2 ^ 32 → asr32 x 31 ≡ x / 2 ^ 32 + x / 2 ^ 31 * (2 ^ 32 - 2 ^ 0)
unfolding asr32
asr_32 x h = elim (Bool-cases (ltb x (2 ^ 31))) [ inl e ↦ ground arith | inr e ↦ ground arith ]

rrx : (x flag : ℕ) → x < 2 ^ 32 → with_carry x flag ≡ x / 2 + flag * 2 ^ 31
unfolding with_carry
rrx x flag h =
    bit_or_comm (x / 2) (flag * 2 ^ 31) ∙ bit_or-field 31 flag (x / 2) (omega arith) ∙ omega arith

counted : (n : ℕ) → (suc n == 0) ≡ false
counted n = ground arith

-- For a word, a count below 32 and all but ROR, the shift in the decoding functions is that of the
-- architecture.
pub shift_imm-shifted :
    (flag x kind n : ℕ)
    → x < 2 ^ 32
    → n < 32
    → (kind ≢ 3) ⊎ (n ≡ 0)
    → kind < 4
    → shift_imm flag x kind n ≡ shifted flag x kind n
unfolding shift_imm shifted
shift_imm-shifted flag x zero n h hn why hk = unfold shl32 in refl
shift_imm-shifted flag x (suc zero) zero h hn why hk = sym (div-eq_of_lt h)
shift_imm-shifted flag x (suc zero) (suc n) h hn why hk = rw (counted n) refl
shift_imm-shifted flag x (suc (suc zero)) zero h hn why hk = asr_32 x h
shift_imm-shifted flag x (suc (suc zero)) (suc n) h hn why hk =
    rw (counted n) (asr-shifted (suc n) x hn h)
shift_imm-shifted flag x (suc (suc (suc zero))) zero h hn why hk = rrx x flag h
shift_imm-shifted flag x (suc (suc (suc zero))) (suc n) h hn why hk = absurd (ground arith)
shift_imm-shifted flag x (suc (suc (suc (suc kind)))) n h hn why hk = absurd (omega arith)

shl32-lt : (x n : ℕ) → shl32 x n < 2 ^ 32
unfolding shl32
shl32-lt x n = mod-lt (x * 2 ^ n) (omega arith)

asr32-lt : (x n : ℕ) → x < 2 ^ 32 → asr32 x n < 2 ^ 32
unfolding asr32
asr32-lt x n h = let e = div-le_self x (2 ^ n) in ground arith

-- what is shifted is a word again
pub shift_imm-lt :
    (flag x kind n : ℕ)
    → x < 2 ^ 32
    → flag < 2
    → n < 32
    → (kind ≢ 3) ⊎ (n ≡ 0)
    → kind < 4
    → shift_imm flag x kind n < 2 ^ 32
unfolding shift_imm
shift_imm-lt flag x zero n h hf hn why hk = shl32-lt x n
shift_imm-lt flag x (suc zero) zero h hf hn why hk = omega arith
shift_imm-lt flag x (suc zero) (suc n) h hf hn why hk =
    let e = div-le_self x (2 ^ suc n) in rw (counted n) (omega arith)
shift_imm-lt flag x (suc (suc zero)) zero h hf hn why hk = asr32-lt x 31 h
shift_imm-lt flag x (suc (suc zero)) (suc n) h hf hn why hk = rw (counted n) (asr32-lt x (suc n) h)
shift_imm-lt flag x (suc (suc (suc zero))) zero h hf hn why hk = rw (rrx x flag h) (omega arith)
shift_imm-lt flag x (suc (suc (suc zero))) (suc n) h hf hn why hk = absurd (ground arith)
shift_imm-lt flag x (suc (suc (suc (suc kind)))) n h hf hn why hk = absurd (omega arith)
