-- ===== src/Decode/LoadMultiple/Slot.antt =====
-- Where LDM reads the word for the PC (`arm_core_ldstm`, ARM_decode_table.c), against the order in
-- which the architecture stores registers.
use rpi_stub.Common.{
  ℕ, zero, suc, ◌+◌, ◌-◌, ◌*◌, ◌/◌, ◌%◌, ◌^◌, ◌≤◌, ◌<◌, ◌≡◌, ap, ◌∙◌, sym, ◌==◌, if◌then◌else◌,
  bit_and, bit_and-field, ◌⊎◌, inl, inr, arith,
}
use native.Mathlib.Nat.{one-le-pow, pow-suc, pow-succ', div-div-eq-div-mul}
use rpi_stub.Instr.Word.{bitrng}
use rpi_stub.Decode.Context.{Context, stored}
use rpi_stub.Decode.Int32.{add32, sub32}
use rpi_stub.Decode.Specific.{ones}
use rpi_stub.Decode.LoadMultiple.{count_loop, register_count, pc_slot}

scaled : (x p : ℕ) → x < 2 → 0 < p → (x * p == 0) ≡ (x == 0)
scaled zero p h hp = ground arith
scaled (suc zero) p h hp = ground arith
scaled (suc (suc x)) p h hp = absurd (omega arith)

half_power : (a k : ℕ) → a / 2 ^ suc k ≡ a / 2 ^ k / 2
half_power a k = rw (pow-suc 2 k) (sym (div-div-eq-div-mul a (2 ^ k) 2))

lowest : (a k : ℕ) → (bit_and a (2 ^ k) == 0) ≡ (a / 2 ^ k % 2 == 0)
lowest a k =
    let e : (2 ^ 1 - 1) * 2 ^ k ≡ 2 ^ k = omega arith in
    let f = bit_and-field k 1 a in
    let g : bit_and a (2 ^ k) ≡ a / 2 ^ k % 2 * 2 ^ k = ap (λ m. bit_and a m) (sym e) ∙ f in
    rw g (scaled (a / 2 ^ k % 2) (2 ^ k) (omega arith) (omega (arith, one-le-pow k 2)))

count_loop-ones : (n instr k acc : ℕ) → count_loop n instr k acc ≡ acc + ones n (instr / 2 ^ k)
unfolding count_loop ones
count_loop-ones zero instr k acc = omega arith
count_loop-ones (suc n) instr k acc =
    let next = count_loop-ones n instr (k + 1) in
    let half : instr / 2 ^ (k + 1) ≡ instr / 2 ^ k / 2 =
      (let e : k + 1 ≡ suc k = omega arith in rw e (half_power instr k)) in
    rw (lowest instr k)
      (next (if instr / 2 ^ k % 2 == 0 then acc else acc + 1) ∙ rw half (ground arith))

-- The count is that of the bits set among the lowest 16.
pub register_count-ones : (instr : ℕ) → register_count instr ≡ ones 16 instr
unfolding register_count
register_count-ones instr =
    let e : instr / 2 ^ 0 ≡ instr = omega arith in count_loop-ones 16 instr 0 0 ∙ rw e (omega arith)

pub ones_top : (k m : ℕ) → m / 2 ^ k % 2 ≤ ones (suc k) m
unfolding ones
ones_top zero m = omega arith
ones_top (suc k) m =
    let e : m / 2 ^ suc k ≡ m / 2 / 2 ^ k =
      rw (pow-succ' 2 k) (sym (div-div-eq-div-mul m 2 (2 ^ k))) in
    rw e (omega (arith, ones_top k (m / 2)))

ones_all : (k m : ℕ) → ones k m ≤ k
unfolding ones
ones_all zero m = omega arith
ones_all (suc k) m = omega (arith, ones_all k (m / 2))

-- The architecture: with `n` registers the words stand from `start` on, the PC's word last. The way
-- is 0 for DA, 1 for IA, 2 for DB and 3 for IB.
unfoldable pub start : ℕ → ℕ → ℕ → ℕ
start way base n =
    if way == 0
    then (base + 2 ^ 32 - 4 * n + 4) % 2 ^ 32
    else if way == 1
    then base
    else if way == 2
    then (base + 2 ^ 32 - 4 * n) % 2 ^ 32
    else (base + 4) % 2 ^ 32

unfoldable pub last : ℕ → ℕ → ℕ → ℕ
unfolding start
last way base n = (start way base n + 4 * (n - 1)) % 2 ^ 32

-- For a list with the PC, LDM reads the PC from the last word of the block where it increments, and
-- from the first word of the block, the lowest register's, where it decrements.
pub pc_slot-start :
    (c : Context) (instr : ℕ)
    → instr / 2 ^ 15 % 2 ≡ 1
    → stored c (bitrng instr 19 16) < 2 ^ 32
    → let base = stored c (bitrng instr 19 16) in
      let way = bitrng instr 24 23 in
      let n = ones 16 instr in
      ((way ≡ 1) ⊎ (way ≡ 3) → pc_slot c instr ≡ last way base n)
      × ((way ≡ 0) ⊎ (way ≡ 2) → pc_slot c instr ≡ start way base n)
unfolding pc_slot add32 sub32 start last
pc_slot-start c instr pc small =
    let some_register = ones_top 15 instr in
    let not_many = ones_all 16 instr in
    let count = register_count-ones instr in
    (
      λ w. elim w [ inl h ↦ rw (h, count) (omega arith) | inr h ↦ rw (h, count) (omega arith) ],
      λ w. elim w [ inl h ↦ rw (h, count) (omega arith) | inr h ↦ rw (h, count) (omega arith) ],
    )
