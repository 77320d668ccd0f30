-- ===== src/Util/Text/Copy.antt =====
-- What the copying functions of util.c leave at the destination, and that it fits there.
use rpi_stub.Common.{
  ℕ, zero, suc, ◌+◌, ◌-◌, ◌≤◌, ◌<◌, ◌≡◌, [], ◌∷◌, ◌++◌, Bytes, All, IsChar, arith, length, ◌==◌,
  if◌then◌else◌, take, min, length-take, length-append,
}
use rpi_stub.Common.Int.{pos}
use rpi_stub.Util.Text.{
  copy_loop, str_copy, append_tail, append_loop, append_str, substr_loop, cpy_substr,
}

copy_loop-take :
    (max k : ℕ) (src : Bytes) (cnt : ℕ)
    → max ≡ cnt + k
    → All IsChar src
    → 0 < k
    → copy_loop max src cnt ≡ (take k src ++ 0 ∷ [], cnt + min k (length src))
unfolding copy_loop
copy_loop-take max zero src cnt e h hk = absurd (omega arith)
copy_loop-take max (suc k) [] cnt e h hk = ground arith
copy_loop-take max (suc zero) (c ∷ src) cnt e h hk = ground arith
copy_loop-take max (suc (suc k)) (c ∷ src) cnt e h hk =
    ground (arith, copy_loop-take max (suc k) src (cnt + 1))

-- `util_str_copy` leaves the first `max_count` characters of the string and a terminator, and
-- returns how many it copied; the destination needs one byte more than `max_count`.
pub str_copy-take :
    (src : Bytes) (max_count : ℕ)
    → All IsChar src
    → 0 < max_count
    → let (left, n) = str_copy src (pos max_count) in
      (left ≡ take max_count src ++ 0 ∷ [])
      × (n ≡ min max_count (length src))
      × (length left ≤ max_count + 1)
unfolding str_copy
str_copy-take src zero h hk = absurd (omega arith)
str_copy-take src (suc k) h hk = ground (
  arith,
  copy_loop-take (suc k) (suc k) src 0,
  length-append (take (suc k) src) (0 ∷ []),
  length-take (suc k) src,
)

-- the part of a string before a delimiter
pub before : ℕ → Bytes → Bytes
before delim [] = []
before delim (c ∷ s) = if c == delim then [] else c ∷ before delim s

substr_loop-take :
    (delim max k : ℕ) (src : Bytes) (i : ℕ)
    → max ≡ i + k + 1
    → All IsChar src
    → 0 < k
    → substr_loop delim max src i
      ≡ (take k (before delim src) ++ 0 ∷ [], i + min k (length (before delim src)))
unfolding substr_loop before
substr_loop-take delim max zero src i e h hk = absurd (omega arith)
substr_loop-take delim max (suc k) [] i e h hk = ground arith
substr_loop-take delim max (suc zero) (c ∷ src) i e h hk = ground arith
substr_loop-take delim max (suc (suc k)) (c ∷ src) i e h hk =
    ground (arith, substr_loop-take delim max (suc k) src (i + 1))

-- `util_cpy_substr` leaves the part before the delimiter, cut to `max - 1` characters, and a
-- terminator: with `max` of at least 2 it never writes more than `max` bytes.
pub cpy_substr-take :
    (src : Bytes) (delim max : ℕ)
    → All IsChar src
    → 2 ≤ max
    → let (left, n) = cpy_substr src delim max in
      (left ≡ take (max - 1) (before delim src) ++ 0 ∷ [])
      × (n ≡ min (max - 1) (length (before delim src)))
      × (length left ≤ max)
unfolding cpy_substr
cpy_substr-take src delim max h hm =
    let part = before delim src in
    ground (
      arith,
      substr_loop-take delim max (max - 1) src 0,
      length-append (take (max - 1) part) (0 ∷ []),
      length-take (max - 1) part,
    )

append_tail-take :
    (max k : ℕ) (src : Bytes) (i : ℕ)
    → max ≡ i + k + 1
    → All IsChar src
    → 0 < k
    → append_tail max src i ≡ (take k src ++ 0 ∷ [], i + min k (length src))
unfolding append_tail
append_tail-take max zero src i e h hk = absurd (omega arith)
append_tail-take max (suc k) [] i e h hk = ground arith
append_tail-take max (suc zero) (c ∷ src) i e h hk = ground arith
append_tail-take max (suc (suc k)) (c ∷ src) i e h hk =
    ground (arith, append_tail-take max (suc k) src (i + 1))

append_loop-take :
    (max k : ℕ) (dst src : Bytes) (i : ℕ)
    → max ≡ i + k + 1
    → All IsChar dst
    → All IsChar src
    → length dst < k
    → append_loop max dst src i ≡ (take k (dst ++ src) ++ 0 ∷ [], i + min k (length (dst ++ src)))
unfolding append_loop
append_loop-take max k [] src i e hd hs hk = append_tail-take max k src i e hs (omega arith)
append_loop-take max zero (c ∷ dst) src i e hd hs hk = absurd (omega arith)
append_loop-take max (suc k) (c ∷ dst) src i e hd hs hk =
    ground (arith, append_loop-take max k dst src (i + 1))

-- Where the string at `dst` has room behind it, `util_append_str` leaves the two strings joined,
-- cut to `max - 1` characters, with a terminator: at most `max` bytes. The result is their length.
pub append_str-take :
    (dst src : Bytes) (max : ℕ)
    → All IsChar dst
    → All IsChar src
    → length dst + 1 < max
    → let (left, n) = append_str dst src max in
      (left ≡ take (max - 1) (dst ++ src) ++ 0 ∷ [])
      × (n ≡ min (max - 1) (length (dst ++ src)))
      × (length left ≤ max)
unfolding append_str
append_str-take dst src max hd hs hm =
    let whole = dst ++ src in
    ground (
      arith,
      append_loop-take max (max - 1) dst src 0,
      length-append (take (max - 1) whole) (0 ∷ []),
      length-take (max - 1) whole,
    )
