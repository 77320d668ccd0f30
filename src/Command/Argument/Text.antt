-- ===== src/Command/Argument/Text.antt =====
-- Arguments of commands as texts in front of their delimiters (gdb.c, util.c).
use rpi_stub.Common.{
  ℕ, ◌+◌, ◌<◌, ◌≡◌, ◌≢◌, refl, ap, Option-cases, ◌∙◌, sym, [], ◌∷◌, ◌++◌, Bytes, All, length, take,
  drop, inl, inr, arith,
}
use rpi_stub.Util.Text.{cpy_substr, substr_loop}
use rpi_stub.Util.Hex.{hex_to_word, hex_to_nib}
use rpi_stub.Util.Hex.Value.{nibbles, value, hex_to_word-value}
use rpi_stub.Command.Argument.{argument, argument_in}

-- Characters of an argument in front of its delimiter.
abbrev pub IsArgument : ℕ → ℕ → Type 0
IsArgument delim c = (c ≢ delim) × (c ≢ 0)

substr_loop-argument :
    (delim max : ℕ) (text rest : Bytes) (i : ℕ)
    → All (IsArgument delim) text
    → i + length text + 1 < max
    → substr_loop delim max (text ++ delim ∷ rest) i ≡ (text ++ 0 ∷ [], i + length text)
unfolding substr_loop
substr_loop-argument delim max [] rest i h fits = ground arith
substr_loop-argument delim max (c ∷ text) rest i h fits =
    ground (arith, h.0.0, h.0.1, substr_loop-argument delim max text rest (i + 1) h.1)

nibbles_end : (text : Bytes) → nibbles (text ++ 0 ∷ []) ≡ nibbles text
unfolding nibbles
nibbles_end [] = unfold hex_to_nib in refl
nibbles_end (c ∷ text) = elim (Option-cases (hex_to_nib c)) [
  | inl e ↦ rw (e, nibbles)
  | inr (v, e) ↦ rw (e, nibbles, nibbles_end text)
]

drop_argument : (text rest : Bytes) (c : ℕ) → drop (length text + 1) (text ++ c ∷ rest) ≡ rest
drop_argument [] rest c = refl
drop_argument (x ∷ text) rest c = ground (arith, drop_argument text rest c)

hex_to_word-end : (text : Bytes) → hex_to_word (text ++ 0 ∷ []) ≡ hex_to_word text
hex_to_word-end text =
    (hex_to_word-value (text ++ 0 ∷ [])).0
    ∙ ap (λ vs. value 0 (take 8 vs)) (nibbles_end text)
    ∙ sym (hex_to_word-value text).0

pub zero_add : (n : ℕ) → 0 + n ≡ n
zero_add n = omega arith

cpy_substr-argument :
    (size delim : ℕ) (text rest : Bytes)
    → All (IsArgument delim) text
    → length text + 1 < size
    → cpy_substr (text ++ delim ∷ rest) delim size ≡ (text ++ 0 ∷ [], length text)
unfolding cpy_substr
cpy_substr-argument size delim text rest h fits =
    substr_loop-argument delim size text rest 0 h (omega arith)
    ∙ ap (λ n. (text ++ 0 ∷ [], n)) (zero_add (length text))

-- A number in front of its delimiter is read, and the packet behind the delimiter is left.
pub argument_in-text :
    (size delim : ℕ) (text rest : Bytes)
    → All (IsArgument delim) text
    → length text + 1 < size
    → argument_in size delim (text ++ delim ∷ rest) ≡ (hex_to_word text, rest)
unfolding argument_in cpy_substr
argument_in-text size delim text rest h fits =
    ap (λ r. (hex_to_word r.0, drop (r.1 + 1) (text ++ delim ∷ rest)))
      (cpy_substr-argument size delim text rest h fits)
    ∙ ap (λ n. (n, drop (length text + 1) (text ++ delim ∷ rest))) (hex_to_word-end text)
    ∙ ap (λ r. (hex_to_word text, r)) (drop_argument text rest delim)

pub argument-text :
    (delim : ℕ) (text rest : Bytes)
    → All (IsArgument delim) text
    → length text + 1 < 16
    → argument delim (text ++ delim ∷ rest) ≡ (hex_to_word text, rest)
unfolding argument
argument-text delim text rest h fits = argument_in-text 16 delim text rest h fits
