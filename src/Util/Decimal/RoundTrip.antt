-- ===== src/Util/Decimal/RoundTrip.antt =====
-- `util_word_to_dec` prints the shortest decimal numeral, and `util_read_dec` reads it back.
use rpi_stub.Common.{
  ℕ, zero, suc, ◌+◌, ◌-◌, ◌*◌, ◌^◌, ◌≤◌, ◌<◌, ◌≡◌, ◌≢◌, refl, ap, ap₂, ◌∙◌, some, [], ◌∷◌, ◌++◌,
  Bytes, List, All, arith, length, ◌==◌, if◌then◌else◌, inl, inr, Bool-cases, false,
}
use mathlib.Core.Option
use rpi_stub.Common.Int.{pos}
use rpi_stub.Util.Decimal.{skip_zeros, copy_string, word_to_dec, read, int_max, read_dec}
use rpi_stub.Util.Decimal.Digits.{
  chars, IsDigit, dec_value, digits, dec_value-digits, digits-IsDigit, length-digits,
  dec_fill-digits,
}
use rpi_stub.Util.Decimal.Range.{read_dec-in_range}

-- A numeral with no zero in front, but for the numeral 0 itself.
abbrev pub IsCanonical : List ℕ → Type 0
IsCanonical [] = ⊥
IsCanonical (d ∷ []) = Unit
IsCanonical (d ∷ e ∷ ds) = d ≢ 0

-- What `skip_zeros` leaves of digits.
strip : ℕ → List ℕ → List ℕ
strip zero ds = ds
strip (suc k) [] = []
strip (suc k) (d ∷ ds) = if d == 0 then strip k ds else d ∷ ds

skip_zeros-chars :
    (k : ℕ) (ds : List ℕ) (t : Bytes)
    → k ≤ length ds
    → skip_zeros k (chars ds ++ t) ≡ chars (strip k ds) ++ t
unfolding skip_zeros strip
skip_zeros-chars zero ds t h = refl
skip_zeros-chars (suc k) [] t h = absurd (omega arith)
skip_zeros-chars (suc k) (d ∷ ds) t h = ground (arith, skip_zeros-chars k ds t)

copy_string-chars : (ds : List ℕ) → copy_string (chars ds ++ 0 ∷ []) ≡ chars ds ++ 0 ∷ []
unfolding copy_string
copy_string-chars [] = refl
copy_string-chars (d ∷ ds) = ground (arith, copy_string-chars ds)

-- What is left of `k + 1` digits is canonical, and spells the same number.
record IsStripped (ds : List ℕ) (left : List ℕ) : Type 0 where
  value : dec_value 0 left ≡ dec_value 0 ds
  canonical : IsCanonical left
  in_range : All IsDigit left

strip-IsStripped :
    (k : ℕ) (ds : List ℕ) → length ds ≡ suc k → All IsDigit ds → IsStripped ds (strip k ds)
unfolding strip
strip-IsStripped k [] h hd = absurd (omega arith)
strip-IsStripped zero (d ∷ []) h hd = record { value = refl; canonical = tt; in_range = hd }
strip-IsStripped zero (d ∷ e ∷ ds) h hd = absurd (omega arith)
strip-IsStripped (suc k) (d ∷ []) h hd = absurd (omega arith)
strip-IsStripped (suc k) (d ∷ e ∷ ds) h hd = elim (Bool-cases (d == 0)) [
  | inl z ↦
      let rest = strip-IsStripped k (e ∷ ds) (omega arith) (hd.1) in
      let same : 0 ≡ 0 * 10 + d = ground arith in
      rw (z, strip)
        (record {
          value = rest.value ∙ ap (λ (n : ℕ). dec_value (n * 10 + e) ds) same;
          canonical = rest.canonical;
          in_range = rest.in_range;
        })
  | inr z ↦ rw (z, strip) (record { value = refl; canonical = ground arith; in_range = hd })
]

-- Every 32-bit word is printed, with no write outside the array of ten digits, as the canonical
-- decimal numeral of its value, with the terminator behind it.
pub word_to_dec-IsCanonical :
    (w : ℕ)
    → w < 2 ^ 32
    → (ds : List ℕ) × (word_to_dec w ≡ some (chars ds ++ 0 ∷ []))
      × IsCanonical ds
      × All IsDigit ds
      × (dec_value 0 ds ≡ w)
unfolding word_to_dec
word_to_dec-IsCanonical w h =
    let all = digits 10 w in
    let s = strip-IsStripped 9 all (length-digits 10 w) (digits-IsDigit 10 w) in
    (
      strip 9 all,
      rw (
        dec_fill-digits 10 w (0 ∷ []) (omega arith),
        Option.map,
        skip_zeros-chars 9 all (0 ∷ []) (omega (arith, length-digits 10 w)),
        copy_string-chars (strip 9 all),
      ),
      s.canonical,
      s.in_range,
      s.value ∙ dec_value-digits 10 w (omega arith),
    )

length-chars : (ds : List ℕ) (t : Bytes) → length (chars ds ++ t) ≡ length ds + length t
length-chars [] t = omega arith
length-chars (d ∷ ds) t = omega (arith, length-chars ds t)

-- What is printed of a word in the range of `int` is read back, up to the terminator.
pub read_dec-word_to_dec :
    (w : ℕ)
    → w ≤ int_max
    → (s : Bytes) × (word_to_dec w ≡ some s) × (read_dec int_max s ≡ read (pos w) (length s - 1))
read_dec-word_to_dec w h = go (word_to_dec-IsCanonical w (omega arith))
  where
    go :
        ((ds : List ℕ) × (word_to_dec w ≡ some (chars ds ++ 0 ∷ []))
          × IsCanonical ds
          × All IsDigit ds
          × (dec_value 0 ds ≡ w))
        → (s : Bytes) × (word_to_dec w ≡ some s)
          × (read_dec int_max s ≡ read (pos w) (length s - 1))
    go ([], e, c, hd, v) = absurd c
    go (d ∷ ds, e, c, hd, v) = (
      chars (d ∷ ds) ++ 0 ∷ [],
      e,
      read_dec-in_range int_max false d ds (0 ∷ []) (omega arith) hd (omega arith) (omega arith)
          ∙ ap₂ (λ (a b : ℕ). read (pos a) b) v (omega (arith, length-chars ds (0 ∷ []))),
    )
