-- ===== src/Util/Text/Compare.antt =====
-- What the string comparisons of util.c decide.
use rpi_stub.Common.{
  ℕ, zero, suc, ◌+◌, ◌≤◌, ◌≡◌, ◌≢◌, ◌↔◌, refl, ap₂, [], ◌∷◌, ◌++◌, Bytes, All, IsChar, arith,
  length, leb, ◌==◌, Bool-cases, inl, inr, true, false,
}
use rpi_stub.Util.Text.{len_loop, str_len, str_cmp, cmp_loop, cmp_substr, skip_leading, strip_zeros}

len_loop-length : (p : Bytes) (i : ℕ) → All IsChar p → len_loop p i ≡ i + length p
unfolding len_loop
len_loop-length [] i h = omega arith
len_loop-length (c ∷ p) i h = ground (arith, len_loop-length p (i + 1))

pub str_len-length : (p : Bytes) → All IsChar p → str_len p ≡ length p
unfolding str_len
str_len-length p h = omega (arith, len_loop-length p 0 h)

str_cmp_sound : (p q : Bytes) → All IsChar p → All IsChar q → str_cmp p q ≡ 0 → p ≡ q
unfolding str_cmp
str_cmp_sound [] [] hp hq h = refl
str_cmp_sound [] (d ∷ q) hp hq h = absurd (ground arith)
str_cmp_sound (c ∷ p) [] hp hq h = absurd (ground arith)
str_cmp_sound (c ∷ p) (d ∷ q) hp hq h = ground (arith, str_cmp_sound p q hp.1 hq.1)

str_cmp_refl : (p : Bytes) → str_cmp p p ≡ 0
unfolding str_cmp
str_cmp_refl [] = refl
str_cmp_refl (c ∷ p) = ground (arith, str_cmp_refl p)

-- `util_str_cmp` is 0 exactly for equal strings.
pub str_cmp_iff : (p q : Bytes) → All IsChar p → All IsChar q → (str_cmp p q ≡ 0) ↔ (p ≡ q)
str_cmp_iff p q hp hq = (str_cmp_sound p q hp hq, λ e. rw e (str_cmp_refl q))

-- The second string begins with the first.
abbrev pub Begins : Bytes → Bytes → Type 0
Begins p q = (rest : Bytes) × (q ≡ p ++ rest)

cmp_loop_sound :
    (p q : Bytes) (i : ℕ) → All IsChar p → All IsChar q → i + length p ≤ cmp_loop p q i → Begins p q
unfolding cmp_loop
cmp_loop_sound [] q i hp hq h = (q, refl)
cmp_loop_sound (c ∷ p) [] i hp hq h = absurd (ground arith)
cmp_loop_sound (c ∷ p) (d ∷ q) i hp hq h = elim (Bool-cases (c == d)) [
  | inl e ↦
      let same : c ≡ d = ground arith in
      let (rest, f) = cmp_loop_sound p q (i + 1) hp.1 hq.1 (ground arith) in (rest, cc)
  | inr e ↦ absurd (ground arith)
]

cmp_loop_complete :
    (p rest : Bytes) (i : ℕ) → All IsChar p → i + length p ≤ cmp_loop p (p ++ rest) i
unfolding cmp_loop
cmp_loop_complete [] rest i hp = ground arith
cmp_loop_complete (c ∷ p) rest i hp = ground (arith, cmp_loop_complete p rest (i + 1))

-- The test `util_cmp_substr(word, text) >= util_str_len(word)` of the command line passes exactly
-- where the text begins with the word, though the count includes a common terminator.
pub cmp_substr_iff :
    (word text : Bytes)
    → All IsChar word
    → All IsChar text
    → (leb (str_len word) (cmp_substr word text) ≡ true) ↔ Begins word text
unfolding cmp_substr
cmp_substr_iff word text hw ht = (
  (λ h. cmp_loop_sound word text 0 hw ht (ground (arith, str_len-length word hw))),
  (λ b.
      let (rest, e) = b in
      rw e (ground (arith, str_len-length word hw, cmp_loop_complete word rest 0 hw))),
)

-- No zero in front, but for a string of one character.
abbrev pub IsStripped : Bytes → Type 0
IsStripped [] = ⊥
IsStripped (c ∷ []) = Unit
IsStripped (c ∷ d ∷ s) = c ≢ b'0'

abbrev pub zeros : ℕ → Bytes
zeros zero = []
zeros (suc k) = b'0' ∷ zeros k

skip_leading-IsStripped :
    (c : ℕ) (s : Bytes)
    → All IsChar (c ∷ s)
    → (k : ℕ) × (c ∷ s ≡ zeros k ++ skip_leading (c ∷ s))
      × IsStripped (skip_leading (c ∷ s))
      × All IsChar (skip_leading (c ∷ s))
unfolding skip_leading
skip_leading-IsStripped c [] h = (0, refl, tt, h)
skip_leading-IsStripped c (d ∷ s) h = elim (Bool-cases (c == b'0')) [
  | inl e ↦
      let same : c ≡ b'0' = ground arith in
      let ne : (d == 0) ≡ false = ground arith in
      let (k, eq, stripped, chars) = skip_leading-IsStripped d s h.1 in
      rw (e, ne, skip_leading) (suc k, ap₂ ◌∷◌ same eq, stripped, chars)
  | inr e ↦
      let ne : (d == 0) ≡ false = ground arith in
      rw (e, ne, skip_leading) (0, refl, ground arith, h)
]

-- Of a nonempty string `util_strip_zeros` drops zeros in front, all of them but for the last
-- character, and returns the length of what is left.
pub strip_zeros-IsStripped :
    (c : ℕ) (s : Bytes)
    → All IsChar (c ∷ s)
    → let (left, n) = strip_zeros (c ∷ s) in
      ((k : ℕ) × (c ∷ s ≡ zeros k ++ left)) × IsStripped left × (n ≡ length left)
unfolding strip_zeros
strip_zeros-IsStripped c s h =
    let ne : (c == 0) ≡ false = ground arith in
    let (k, eq, stripped, chars) = skip_leading-IsStripped c s h in
    rw ne ((k, eq), stripped, str_len-length (skip_leading (c ∷ s)) chars)
