-- ===== src/Stub/Memory.antt =====
-- The debuggee's memory: a byte at every address, with the little-endian accesses of the stub
-- through `uint32_t *` and `uint16_t *` pointers.
use rpi_stub.Common.{
  ℕ, zero, suc, ◌+◌, ◌-◌, ◌*◌, ◌/◌, ◌%◌, ◌^◌, ◌<◌, ◌≡◌, ap, ◌&&◌, Bool, leb, ltb, if◌then◌else◌,
  arith,
}

abbrev pub Memory : Type 0
Memory = ℕ → ℕ

-- the byte of a word at an offset
unfoldable pub byte_of : ℕ → ℕ → ℕ
byte_of v zero = v % 2 ^ 8
byte_of v (suc zero) = v / 2 ^ 8 % 2 ^ 8
byte_of v (suc (suc zero)) = v / 2 ^ 16 % 2 ^ 8
byte_of v (suc (suc (suc k))) = v / 2 ^ 24 % 2 ^ 8

-- the address lies in the `size` bytes from `a` on
abbrev pub within : ℕ → ℕ → ℕ → Bool
within a size q = leb a q && ltb q (a + size)

-- `*(uint32_t *)a`
unfoldable pub load32 : Memory → ℕ → ℕ
load32 m a = m a + m (a + 1) * 2 ^ 8 + m (a + 2) * 2 ^ 16 + m (a + 3) * 2 ^ 24

-- `*(uint32_t *)a = v` and `*(uint16_t *)a = v`
unfoldable pub store : ℕ → Memory → ℕ → ℕ → Memory
unfolding byte_of
store size m a v q = if within a size q then byte_of v (q - a) else m q

abbrev pub store32 : Memory → ℕ → ℕ → Memory
store32 = store 4

abbrev pub store16 : Memory → ℕ → ℕ → Memory
store16 = store 2

abbrev pub IsMemory : Memory → Type 0
IsMemory m = (q : ℕ) → m q < 256

offset-cases : (k : ℕ) (P : ℕ → Type 0) → k < 4 → P 0 → P 1 → P 2 → P 3 → P k
offset-cases zero P h p0 p1 p2 p3 = p0
offset-cases (suc zero) P h p0 p1 p2 p3 = p1
offset-cases (suc (suc zero)) P h p0 p1 p2 p3 = p2
offset-cases (suc (suc (suc zero))) P h p0 p1 p2 p3 = p3
offset-cases (suc (suc (suc (suc k)))) P h p0 p1 p2 p3 = absurd (omega arith)

-- A byte of the word that is loaded is the byte in memory.
pub byte_of-load32 :
    (m : Memory) (a k : ℕ) → IsMemory m → k < 4 → byte_of (load32 m a) k ≡ m (a + k)
unfolding byte_of load32
byte_of-load32 m a k h hk =
    offset-cases k (λ k. byte_of (load32 m a) k ≡ m (a + k)) hk
      (ground
        (arith, h a, h (a + 1), h (a + 2), h (a + 3), ap m (let e : a + 0 ≡ a = omega arith in e)))
      (ground (arith, h a, h (a + 1), h (a + 2), h (a + 3)))
      (ground (arith, h a, h (a + 1), h (a + 2), h (a + 3)))
      (ground (arith, h a, h (a + 1), h (a + 2), h (a + 3)))
