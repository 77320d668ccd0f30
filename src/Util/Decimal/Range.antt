-- ===== src/Util/Decimal/Range.antt =====
-- `util_read_dec` inside the range of `int`, and beyond it.
use rpi_stub.Common.{
  ℕ, suc, ◌+◌, ◌-◌, ◌*◌, ◌≤◌, ◌<◌, ◌≡◌, refl, ◌⊎◌, [], ◌∷◌, ◌++◌, Bytes, List, All, arith, length,
  Bool, true, false, if◌then◌else◌,
}
use rpi_stub.Common.Int.{pos, neg}
use rpi_stub.Util.Decimal.{undefined, read, int_max, signed_result, read_loop, read_dec}
use rpi_stub.Util.Decimal.Digits.{chars, IsDigit, dec_value}

-- The text ends, or goes on with what is no digit.
abbrev pub Stops : Bytes → Type 0
Stops [] = Unit
Stops (c ∷ s) = (c < b'0') ⊎ (b'9' < c)

pub le-dec_value : (ds : List ℕ) (n : ℕ) → n ≤ dec_value n ds
le-dec_value [] n = omega arith
le-dec_value (d ∷ ds) n = omega (arith, le-dec_value ds (n * 10 + d))

module _ (long_max : ℕ) (minus : Bool) (wide : int_max ≤ long_max) where
  read_loop-stop :
      (s : Bytes) (n i : ℕ) → Stops s → read_loop long_max minus s n n i ≡ signed_result minus n i
  unfolding read_loop
  read_loop-stop [] n i h = refl
  read_loop-stop (c ∷ s) n i h = ground arith

  pub read_loop-in_range :
      (ds : List ℕ) (s : Bytes) (n i : ℕ)
      → All IsDigit ds
      → Stops s
      → dec_value n ds ≤ int_max
      → read_loop long_max minus (chars ds ++ s) n n i
        ≡ signed_result minus (dec_value n ds) (i + length ds)
  unfolding read_loop
  read_loop-in_range [] s n i hd hs h =
      let e : i + 0 ≡ i = omega arith in rw e (read_loop-stop s n i hs)
  read_loop-in_range (d ∷ ds) s n i hd hs h =
      let e : d + b'0' - b'0' ≡ d = omega arith in
      let f : i + suc (length ds) ≡ i + 1 + length ds = omega arith in
      rw (e, f)
        (ground (
          arith,
          le-dec_value ds (n * 10 + d),
          read_loop-in_range ds s (n * 10 + d) (i + 1) (hd.1) hs h,
        ))

-- On a `long` no wider than `int`, a number that does not fit is an overflow of `tmp2`.
pub read_loop_overflow :
    (minus : Bool) (ds : List ℕ) (s : Bytes) (n i : ℕ)
    → All IsDigit ds
    → n ≤ int_max
    → int_max < dec_value n ds
    → read_loop int_max minus (chars ds ++ s) n n i ≡ undefined
unfolding read_loop
read_loop_overflow minus [] s n i hd hn h = absurd (omega arith)
read_loop_overflow minus (d ∷ ds) s n i hd hn h =
    let e : d + b'0' - b'0' ≡ d = omega arith in
    rw e (ground (arith, read_loop_overflow minus ds s (n * 10 + d) (i + 1) (hd.1)))

-- the sign in front of a number
abbrev pub sign : Bool → Bytes
sign false = []
sign true = b'-' ∷ []

read_dec-unsigned :
    (long_max d : ℕ) (ds : List ℕ) (s : Bytes)
    → d < 10
    → read_dec long_max (chars (d ∷ ds) ++ s) ≡ read_loop long_max false (chars (d ∷ ds) ++ s) 0 0 0
unfolding read_dec
read_dec-unsigned long_max d ds s h = ground arith

read_dec-signed :
    (long_max : ℕ) (s : Bytes) → read_dec long_max (b'-' ∷ s) ≡ read_loop long_max true s 0 0 1
unfolding read_dec
read_dec-signed long_max s = refl

-- A number with an optional sign whose value fits an `int` is read as that value, and the result
-- counts the sign and the digits; the text behind it may be anything but a digit.
pub read_dec-in_range :
    (long_max : ℕ) (minus : Bool) (d : ℕ) (ds : List ℕ) (s : Bytes)
    → int_max ≤ long_max
    → All IsDigit (d ∷ ds)
    → Stops s
    → dec_value 0 (d ∷ ds) ≤ int_max
    → read_dec long_max (sign minus ++ (chars (d ∷ ds) ++ s)) ≡ (
        if minus
        then read (neg (dec_value 0 (d ∷ ds))) (1 + length (d ∷ ds))
        else read (pos (dec_value 0 (d ∷ ds))) (length (d ∷ ds)))
read_dec-in_range long_max false d ds s wide hd hs h =
    rw
      (
        read_dec-unsigned long_max d ds s (hd.0),
        read_loop-in_range long_max false wide (d ∷ ds) s 0 0 hd hs h,
      )
      (ground arith)
read_dec-in_range long_max true d ds s wide hd hs h =
    rw
      (
        read_dec-signed long_max (chars (d ∷ ds) ++ s),
        read_loop-in_range long_max true wide (d ∷ ds) s 0 1 hd hs h,
      )
      (ground arith)

-- With the 32-bit `long` of the target, every number above the range of `int` makes the signed sum
-- in `tmp2` overflow before the test against 0x7fffffff.
pub read_dec_overflow :
    (minus : Bool) (d : ℕ) (ds : List ℕ) (s : Bytes)
    → All IsDigit (d ∷ ds)
    → int_max < dec_value 0 (d ∷ ds)
    → read_dec int_max (sign minus ++ (chars (d ∷ ds) ++ s)) ≡ undefined
read_dec_overflow false d ds s hd h =
    rw (read_dec-unsigned int_max d ds s (hd.0))
      (read_loop_overflow false (d ∷ ds) s 0 0 hd (omega arith) h)
read_dec_overflow true d ds s hd h =
    rw (read_dec-signed int_max (chars (d ∷ ds) ++ s))
      (read_loop_overflow true (d ∷ ds) s 0 1 hd (omega arith) h)
