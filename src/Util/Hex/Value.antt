-- ===== src/Util/Hex/Value.antt =====
-- What the hex readers read: the value of the hex digits at the pointer, eight or sixteen at most.
use rpi_stub.Common.{
  ℕ, zero, suc, ◌+◌, ◌*◌, ◌%◌, ◌^◌, ◌≤◌, ◌<◌, ◌≡◌, refl, none, some, [], ◌∷◌, List, Bytes, take,
  bit_and, bit_or, bit_or-field, bit_and-mask, arith, Option-cases, inl, inr,
}
use native.Mathlib.Nat.{pow-suc, one-le-pow, mod-eq_of_lt}
use rpi_stub.Util.Hex.{hex_to_nib, hex_loop, hex_to_word, hex_to_dword}

pub hex_to_nib-lt : (c : ℕ) {v : ℕ} → hex_to_nib c ≡ some v → v < 16
unfolding hex_to_nib
hex_to_nib-lt c h = ground arith

-- the hex digits that a text begins with
unfoldable pub nibbles : Bytes → List ℕ
nibbles [] = []
nibbles (c ∷ p) = elim (hex_to_nib c) [ none ↦ [] | some v ↦ v ∷ nibbles p ]

-- the number that digits spell in base sixteen, behind `n`
abbrev pub value : ℕ → List ℕ → ℕ
value n [] = n
value n (v ∷ vs) = value (n * 16 + v) vs

-- shifting a digit in, where the top four bits are free
pub shift_in :
    (w acc v : ℕ)
    → acc * 16 < 2 ^ w
    → v < 16
    → bit_or (acc * 16 % 2 ^ w) (bit_and v 0x0f) ≡ acc * 16 + v
shift_in w acc v h hv =
    rw (mod-eq_of_lt h, bit_and-mask 4 v, mod-eq_of_lt hv) (bit_or-field 4 acc v hv)

step_fits : (acc v t m : ℕ) → v < 16 → (acc + 1) * (t * 16) ≤ m → (acc * 16 + v + 1) * t ≤ m
step_fits acc v t m hv h = grind arith

step_room : (acc t m : ℕ) → 1 ≤ t → (acc + 1) * (t * 16) ≤ m → acc * 16 < m
step_room acc t m ht h = grind arith

-- While the digits to come fit the word, the loop computes their value.
pub hex_loop-value :
    (w i : ℕ) (p : Bytes) (acc : ℕ)
    → (acc + 1) * 16 ^ i ≤ 2 ^ w
    → hex_loop w i p acc ≡ value acc (take i (nibbles p))
unfolding hex_loop nibbles
hex_loop-value w zero p acc h = refl
hex_loop-value w (suc i) [] acc h = unfold hex_to_nib in refl
hex_loop-value w (suc i) (c ∷ p) acc h = elim (Option-cases (hex_to_nib c)) [
  | inl e ↦ rw (e, hex_loop, nibbles)
  | inr (v, e) ↦
      let room : (acc + 1) * (16 ^ i * 16) ≤ 2 ^ w = rw (pow-suc 16 i) at h in
      let hv = hex_to_nib-lt c e in
      rw
        (
          e,
          hex_loop,
          nibbles,
          shift_in w acc v (step_room acc (16 ^ i) _ (one-le-pow i 16 (omega arith)) room) hv,
        )
        (hex_loop-value w i p (acc * 16 + v) (step_fits acc v (16 ^ i) _ hv room))
]

-- `util_hex_to_word` is the value of the (at most eight) hex digits at the pointer, and
-- `util_hex_to_dword` that of the (at most sixteen): nothing is lost to the width of the word.
pub hex_to_word-value :
    (p : Bytes)
    → (hex_to_word p ≡ value 0 (take 8 (nibbles p)))
      × (hex_to_dword p ≡ value 0 (take 16 (nibbles p)))
unfolding hex_to_word hex_to_dword
hex_to_word-value p =
    (hex_loop-value 32 8 p 0 (omega arith), hex_loop-value 64 16 p 0 (omega arith))
