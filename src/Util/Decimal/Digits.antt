-- ===== src/Util/Decimal/Digits.antt =====
-- The decimal digits that `util_word_to_dec` leaves in its array.
use rpi_stub.Common.{
  ℕ, zero, suc, ◌+◌, ◌*◌, ◌/◌, ◌%◌, ◌^◌, ◌<◌, ◌≡◌, refl, sym, ap, ◌∙◌, some, [], ◌∷◌, ◌++◌, Bytes,
  List, set, replicate, All, append_assoc, arith, length, length-append, ◌==◌, Bool-cases, inl, inr,
}
use native.Mathlib.Nat.{pow-suc}
use rpi_stub.Util.Decimal.{dec_fill}

-- digits as characters
abbrev pub chars : List ℕ → Bytes
chars [] = []
chars (d ∷ ds) = (d + b'0') ∷ chars ds

abbrev pub IsDigit : ℕ → Type 0
IsDigit d = d < 10

-- the number that digits spell in base ten, behind `n`
abbrev pub dec_value : ℕ → List ℕ → ℕ
dec_value n [] = n
dec_value n (d ∷ ds) = dec_value (n * 10 + d) ds

-- the last `k` decimal digits of `w`
pub digits : ℕ → ℕ → List ℕ
digits zero w = []
digits (suc k) w = digits k (w / 10) ++ w % 10 ∷ []

pub chars-append : (xs ys : List ℕ) → chars (xs ++ ys) ≡ chars xs ++ chars ys
chars-append [] ys = refl
chars-append (x ∷ xs) ys = ap (λ l. (x + b'0') ∷ l) (chars-append xs ys)

dec_value-append : (n d : ℕ) (xs : List ℕ) → dec_value n (xs ++ d ∷ []) ≡ dec_value n xs * 10 + d
dec_value-append n d [] = refl
dec_value-append n d (x ∷ xs) = dec_value-append (n * 10 + x) d xs

pub dec_value-digits : (k w : ℕ) → w < 10 ^ k → dec_value 0 (digits k w) ≡ w
unfolding digits
dec_value-digits zero w h = omega arith
dec_value-digits (suc k) w h = omega (
  arith,
  dec_value-append 0 (w % 10) (digits k (w / 10)),
  dec_value-digits k (w / 10) (omega (arith, pow-suc 10 k)),
)

pub digits-IsDigit : (k w : ℕ) → All IsDigit (digits k w)
unfolding digits
digits-IsDigit zero w = tt
digits-IsDigit (suc k) w = snoc (digits k (w / 10)) (digits-IsDigit k (w / 10))
  where
    snoc : (xs : List ℕ) → All IsDigit xs → All IsDigit (xs ++ w % 10 ∷ [])
    snoc [] h = (omega arith, tt)
    snoc (x ∷ xs) h = (h.0, snoc xs h.1)

pub length-digits : (k w : ℕ) → length (digits k w) ≡ k
unfolding digits
length-digits zero w = refl
length-digits (suc k) w =
    omega (arith, length-append (digits k (w / 10)) (w % 10 ∷ []), length-digits k (w / 10))

chars-digits-zero : (k : ℕ) (t : Bytes) → chars (digits k 0) ++ t ≡ replicate k b'0' ++ t
unfolding digits
chars-digits-zero zero t = refl
chars-digits-zero (suc k) t =
    rw (chars-append (digits k 0) (0 ∷ []), append_assoc, chars-digits-zero k (b'0' ∷ t)) (shift k)
  where
    shift : (k : ℕ) → replicate k b'0' ++ b'0' ∷ t ≡ b'0' ∷ (replicate k b'0' ++ t)
    shift zero = refl
    shift (suc k) = ap (λ l. b'0' ∷ l) (shift k)

set-replicate :
    (i c : ℕ) (t : Bytes) → set (replicate (suc i) b'0' ++ t) i c ≡ replicate i b'0' ++ c ∷ t
set-replicate zero c t = refl
set-replicate (suc i) c t = ap (λ l. b'0' ∷ l) (set-replicate i c t)

-- The loop writes the digits over the zeros, and never before the array.
pub dec_fill-digits :
    (room w : ℕ) (t : Bytes)
    → w < 10 ^ room
    → dec_fill w room (replicate room b'0' ++ t) ≡ some (chars (digits room w) ++ t)
unfolding dec_fill
dec_fill-digits zero w t h = unfold digits in ground arith
dec_fill-digits (suc i) w t h = elim (Bool-cases (w == 0)) [
  | inl e ↦ let z : w ≡ 0 = ground arith in rw (z, chars-digits-zero (suc i) t) refl
  | inr e ↦
      rw (e, dec_fill, set-replicate i (w % 10 + b'0') t)
        (dec_fill-digits i (w / 10) ((w % 10 + b'0') ∷ t) (omega (arith, pow-suc 10 i))
          ∙ ap some (
              sym (
                unfold digits in
                rw (chars-append (digits i (w / 10)) (w % 10 ∷ []), append_assoc))))
]
