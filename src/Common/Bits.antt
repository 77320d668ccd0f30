-- ===== src/Common/Bits.antt =====
-- The bit operations of C at variables: `|` of disjoint fields, `&` with a field's mask, and, over
-- a byte, any law by evaluation at every value.
use Prim.Native.Nat.{
  ℕ, zero, suc, ◌+◌, ◌-◌, ◌*◌, ◌/◌, ◌%◌, ◌^◌, ◌≤◌, ◌<◌, min, max, digits, bit_and, bit_or,
  bit_and-bitwise, bit_or-bitwise,
}
use native.Mathlib.Nat.{
  pow-suc, pow-succ', one-le-pow, le_refl, zero-div, zero-mod, div-add-mod, div-div-eq-div-mul,
}
use mathlib.Core.Path.{◌≡◌, refl, sym, ap, subst}
use mathlib.Core.Bool.{Bool, true, false}
use mathlib.Core.Logic.{inl, inr}
use rpi_stub.Common.Tests.{if◌then◌else◌, Bool-cases}
use native.Mathlib.Omega.{arith}

double : (k q : ℕ) → q * 2 ^ suc k ≡ 2 * (q * 2 ^ k)
double k q = omega (arith, ap (λ (t : ℕ). q * t) (pow-suc 2 k))

-- With enough rounds `n`, the digits of a field's `|` are its two parts.
or_digits : (n k q r a : ℕ) → a ≤ n → a ≡ q * 2 ^ k → r < 2 ^ k → digits (λ b. b) max n a r ≡ a + r
or_digits zero k q r zero h e f = omega arith
or_digits zero k q r (suc a) h e f = absurd (omega arith)
or_digits (suc n) k q r zero h e f = omega arith
or_digits (suc n) zero q r (suc a) h e f = omega (
  arith,
  or_digits n zero (suc a / 2) (r / 2) (suc a / 2) (omega arith) (omega arith) (omega arith),
)
or_digits (suc n) (suc k) q r (suc a) h e f = omega (
  arith,
  double k q,
  pow-suc 2 k,
  or_digits n k q (r / 2) (suc a / 2) (omega arith) (omega (arith, double k q))
      (omega (arith, pow-suc 2 k)),
)

-- `(q << k) | r` is a sum where `r` has at most `k` bits.
pub bit_or-field : (k q r : ℕ) → r < 2 ^ k → bit_or (q * 2 ^ k) r ≡ q * 2 ^ k + r
bit_or-field k q r h =
    let e : bit_or (q * 2 ^ k) r ≡ digits (λ b. b) max (q * 2 ^ k) (q * 2 ^ k) r =
      bit_or-bitwise (q * 2 ^ k) r in
    omega (arith, e, or_digits (q * 2 ^ k) k q r (q * 2 ^ k) (le_refl _) refl h)

mod-double : (a k : ℕ) → a % 2 ^ suc k ≡ 2 * (a / 2 % 2 ^ k) + a % 2
mod-double a k =
    let q = a / 2 / 2 ^ k in
    let same : a / 2 ^ suc k ≡ q = rw (pow-succ' 2 k) (sym (div-div-eq-div-mul a 2 (2 ^ k))) in
    omega (
      arith,
      pow-suc 2 k,
      div-add-mod (a / 2) (2 ^ k),
      div-add-mod a (2 ^ suc k),
      double k q,
      ap (λ (t : ℕ). t * 2 ^ suc k) same,
    )

and_digits : (n k a : ℕ) → a ≤ n → digits (λ b. 0) min n a (2 ^ k - 1) ≡ a % 2 ^ k
and_digits zero k zero h = omega (arith, one-le-pow k 2)
and_digits zero k (suc a) h = absurd (omega arith)
and_digits (suc n) k zero h = omega (arith, one-le-pow k 2)
and_digits (suc n) zero (suc a) h = omega (arith, and_digits n zero (suc a / 2) (omega arith))
and_digits (suc n) (suc k) (suc a) h = omega (
  arith,
  pow-suc 2 k,
  one-le-pow k 2,
  mod-double (suc a) k,
  subst (λ m. digits (λ b. 0) min n (suc a / 2) m ≡ suc a / 2 % 2 ^ k)
      (let e : 2 ^ k - 1 ≡ (2 ^ suc k - 1) / 2 = omega (arith, pow-suc 2 k, one-le-pow k 2) in e)
      (and_digits n k (suc a / 2) (omega arith)),
)

field_digits :
    (n i k a : ℕ)
    → a ≤ n
    → digits (λ b. 0) min n a ((2 ^ k - 1) * 2 ^ i) ≡ a / 2 ^ i % 2 ^ k * 2 ^ i
field_digits n zero k a h =
    let e : (2 ^ k - 1) * 2 ^ zero ≡ 2 ^ k - 1 = omega arith in
    let f : a / 2 ^ zero ≡ a = omega arith in rw (e, f) (omega (arith, and_digits n k a h))
field_digits zero (suc i) k zero h = rw (zero-div, zero-mod) (omega arith)
field_digits zero (suc i) k (suc a) h = absurd (omega arith)
field_digits (suc n) (suc i) k zero h = rw (zero-div, zero-mod) (omega arith)
field_digits (suc n) (suc i) k (suc a) h =
    let mask : (2 ^ k - 1) * 2 ^ suc i / 2 ≡ (2 ^ k - 1) * 2 ^ i =
      omega (arith, double i (2 ^ k - 1)) in
    let same : suc a / 2 ^ suc i ≡ suc a / 2 / 2 ^ i =
      rw (pow-succ' 2 i) (sym (div-div-eq-div-mul (suc a) 2 (2 ^ i))) in
    rw (mask, same)
      (omega (
        arith,
        field_digits n i k (suc a / 2) (omega arith),
        double i (2 ^ k - 1),
        double i (suc a / 2 / 2 ^ i % 2 ^ k),
      ))

-- `x & (mask << i)`, with a mask of `k` ones, keeps the field of `k` bits at bit `i`.
pub bit_and-field : (i k a : ℕ) → bit_and a ((2 ^ k - 1) * 2 ^ i) ≡ a / 2 ^ i % 2 ^ k * 2 ^ i
bit_and-field i k a =
    subst (λ m. m ≡ a / 2 ^ i % 2 ^ k * 2 ^ i) (sym (bit_and-bitwise a ((2 ^ k - 1) * 2 ^ i)))
      (field_digits a i k a (le_refl a))

-- `x & mask`, with a mask of `k` ones, is the remainder by `2 ^ k`.
pub bit_and-mask : (k a : ℕ) → bit_and a (2 ^ k - 1) ≡ a % 2 ^ k
bit_and-mask k a =
    subst (λ m. m ≡ a % 2 ^ k) (sym (bit_and-bitwise a (2 ^ k - 1))) (and_digits a k a (le_refl a))

-- The digits of an operation do not depend on how many rounds are left behind the last.
rounds :
    (z : ℕ → ℕ) (f : ℕ → ℕ → ℕ) (n m a b : ℕ) → a ≤ n → a ≤ m → digits z f n a b ≡ digits z f m a b
rounds z f zero zero a b hn hm = refl
rounds z f zero (suc m) zero b hn hm = refl
rounds z f zero (suc m) (suc a) b hn hm = absurd (omega arith)
rounds z f (suc n) zero zero b hn hm = refl
rounds z f (suc n) zero (suc a) b hn hm = absurd (omega arith)
rounds z f (suc n) (suc m) zero b hn hm = refl
rounds z f (suc n) (suc m) (suc a) b hn hm =
    ap (λ t. t * 2 + f (suc a % 2) (b % 2))
      (rounds z f n m (suc a / 2) (b / 2) (omega arith) (omega arith))

pub bit_or_zero : (b : ℕ) → bit_or 0 b ≡ b
bit_or_zero b = bit_or-bitwise 0 b

bit_or_halves : (a b : ℕ) → bit_or a b ≡ 2 * bit_or (a / 2) (b / 2) + max (a % 2) (b % 2)
bit_or_halves zero b = omega (arith, bit_or_zero b, bit_or_zero (b / 2))
bit_or_halves (suc a) b =
    let low = rounds (λ b. b) max a (suc a / 2) (suc a / 2) (b / 2) (omega arith) (omega arith) in
    omega (arith, low, bit_or-bitwise (suc a) b, bit_or-bitwise (suc a / 2) (b / 2))

-- `|` with a number whose lowest `k` bits are clear.
pub bit_or-shift : (k q x : ℕ) → bit_or (q * 2 ^ k) x ≡ bit_or q (x / 2 ^ k) * 2 ^ k + x % 2 ^ k
bit_or-shift zero q x =
    let e : q * 2 ^ zero ≡ q = omega arith in
    let f : x / 2 ^ zero ≡ x = omega arith in rw (e, f) (omega arith)
bit_or-shift (suc k) q x =
    let a : q * 2 ^ suc k / 2 ≡ q * 2 ^ k = omega (arith, double k q) in
    let b : x / 2 / 2 ^ k ≡ x / 2 ^ suc k = rw (pow-succ' 2 k) (div-div-eq-div-mul x 2 (2 ^ k)) in
    omega (
      arith,
      double k q,
      double k (bit_or q (x / 2 ^ suc k)),
      mod-double x k,
      bit_or_halves (q * 2 ^ suc k) x,
      ap (λ t. bit_or t (x / 2)) a,
      ap (λ t. bit_or q t * 2 ^ k) b,
      bit_or-shift k q (x / 2),
    )

bit_and_zero : (b : ℕ) → bit_and 0 b ≡ 0
bit_and_zero b = bit_and-bitwise 0 b

bit_and_halves : (a b : ℕ) → bit_and a b ≡ 2 * bit_and (a / 2) (b / 2) + min (a % 2) (b % 2)
bit_and_halves zero b = omega (arith, bit_and_zero b, bit_and_zero (b / 2))
bit_and_halves (suc a) b =
    let low = rounds (λ b. 0) min a (suc a / 2) (suc a / 2) (b / 2) (omega arith) (omega arith) in
    omega (arith, low, bit_and-bitwise (suc a) b, bit_and-bitwise (suc a / 2) (b / 2))

swap_rounds : (n a m k : ℕ) → a ≤ n → bit_and (bit_and a m) k ≡ bit_and (bit_and a k) m
swap_rounds zero a m k h =
    let e : a ≡ 0 = omega arith in rw (e, bit_and_zero m, bit_and_zero k, bit_and_zero m) refl
swap_rounds (suc n) zero m k h = rw (bit_and_zero m, bit_and_zero k, bit_and_zero m) refl
swap_rounds (suc n) (suc a) m k h =
    let p = bit_and_halves (suc a) m in
    let q = bit_and_halves (suc a) k in
    let p' : bit_and (suc a) m / 2 ≡ bit_and (suc a / 2) (m / 2) = omega arith in
    let q' : bit_and (suc a) k / 2 ≡ bit_and (suc a / 2) (k / 2) = omega arith in
    omega (
      arith,
      bit_and_halves (bit_and (suc a) m) k,
      bit_and_halves (bit_and (suc a) k) m,
      ap (λ (t : ℕ). bit_and t (k / 2)) p',
      ap (λ (t : ℕ). bit_and t (m / 2)) q',
      swap_rounds n (suc a / 2) (m / 2) (k / 2) (omega arith),
    )

-- Two masks can be applied in either order.
pub bit_and_swap : (a m k : ℕ) → bit_and (bit_and a m) k ≡ bit_and (bit_and a k) m
bit_and_swap a m k = swap_rounds a a m k (le_refl a)

assoc_rounds : (n a k m : ℕ) → a ≤ n → bit_and (bit_and a k) m ≡ bit_and a (bit_and k m)
assoc_rounds zero a k m h =
    let e : a ≡ 0 = omega arith in
    rw (e, bit_and_zero k, bit_and_zero m, bit_and_zero (bit_and k m)) refl
assoc_rounds (suc n) zero k m h =
    rw (bit_and_zero k, bit_and_zero m, bit_and_zero (bit_and k m)) refl
assoc_rounds (suc n) (suc a) k m h =
    let p = bit_and_halves (suc a) k in
    let q = bit_and_halves k m in
    let p' : bit_and (suc a) k / 2 ≡ bit_and (suc a / 2) (k / 2) = omega arith in
    let q' : bit_and k m / 2 ≡ bit_and (k / 2) (m / 2) = omega arith in
    omega (
      arith,
      bit_and_halves (bit_and (suc a) k) m,
      bit_and_halves (suc a) (bit_and k m),
      ap (λ (t : ℕ). bit_and t (m / 2)) p',
      ap (λ (t : ℕ). bit_and (suc a / 2) t) q',
      assoc_rounds n (suc a / 2) (k / 2) (m / 2) (omega arith),
    )

pub bit_and_assoc : (a k m : ℕ) → bit_and (bit_and a k) m ≡ bit_and a (bit_and k m)
bit_and_assoc a k m = assoc_rounds a a k m (le_refl a)

below_rounds : (n a k : ℕ) → a ≤ n → bit_and a k ≤ a
below_rounds zero a k h = let e : a ≡ 0 = omega arith in rw (e, bit_and_zero k) (omega arith)
below_rounds (suc n) zero k h = rw (bit_and_zero k) (omega arith)
below_rounds (suc n) (suc a) k h =
    omega (arith, bit_and_halves (suc a) k, below_rounds n (suc a / 2) (k / 2) (omega arith))

-- A mask takes nothing but bits away.
pub bit_and_below : (a k : ℕ) → bit_and a k ≤ a
bit_and_below a k = below_rounds a a k (le_refl a)

comm_rounds : (n a b : ℕ) → a ≤ n → bit_and a b ≡ bit_and b a
comm_rounds zero a b h =
    let e : a ≡ 0 = omega arith in
    rw (e, bit_and_zero b) (let f = bit_and-mask 0 b in omega (arith, f))
comm_rounds (suc n) zero b h = rw (bit_and_zero b) (let f = bit_and-mask 0 b in omega (arith, f))
comm_rounds (suc n) (suc a) b h = omega (
  arith,
  bit_and_halves (suc a) b,
  bit_and_halves b (suc a),
  comm_rounds n (suc a / 2) (b / 2) (omega arith),
)

pub bit_and_comm : (a b : ℕ) → bit_and a b ≡ bit_and b a
bit_and_comm a b = comm_rounds a a b (le_refl a)

or_comm_rounds : (n a b : ℕ) → a ≤ n → b ≤ n → bit_or a b ≡ bit_or b a
or_comm_rounds zero zero zero h k = refl
or_comm_rounds zero (suc a) b h k = absurd (omega arith)
or_comm_rounds zero zero (suc b) h k = absurd (omega arith)
or_comm_rounds (suc n) a b h k = omega (
  arith,
  bit_or_halves a b,
  bit_or_halves b a,
  or_comm_rounds n (a / 2) (b / 2) (omega arith) (omega arith),
)

pub bit_or_comm : (a b : ℕ) → bit_or a b ≡ bit_or b a
bit_or_comm a b = or_comm_rounds (a + b) a b (omega arith) (omega arith)

-- A law over a small range is a table: the test is run at every number below the bound.
unfoldable pub all_below : ℕ → (ℕ → Bool) → Bool
all_below zero test = true
all_below (suc top) test = if test top then all_below top test else false

pub all_below_sound :
    (bound : ℕ) (test : ℕ → Bool) (v : ℕ) → all_below bound test ≡ true → v < bound → test v ≡ true
unfolding all_below
all_below_sound zero test v table below = absurd (omega arith)
all_below_sound (suc top) test v table below = elim (Bool-cases (test top)) [
  | inl here ↦ ground (arith, all_below_sound top test v)
  | inr fails ↦ absurd (ground arith)
]
