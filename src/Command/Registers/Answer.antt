-- ===== src/Command/Registers/Answer.antt =====
-- The texts that answer the command p (gdb.c), read again.
use rpi_stub.Common.{
  ℕ, zero, suc, ◌^◌, ◌<◌, ◌≡◌, refl, ap, ◌∙◌, sym, [], ◌∷◌, Bytes, take, false, inl, inr,
  Option-cases, ◌==◌, arith,
}
use rpi_stub.Util.Hex.{hex_to_word, hex_to_dword, hex_to_nib, word_to_hex, dword_to_hex}
use rpi_stub.Util.Hex.Value.{nibbles, value, hex_to_word-value}
use rpi_stub.Util.Hex.RoundTrip.{hex_to_word-word_to_hex}
use rpi_stub.Util.Text.{str_len, len_loop}
use rpi_stub.Util.Swap.{
  swap_bytes, swap_bytesd, swap_bytes-lt, swap_bytes_twice, swap_bytesd-lt, swap_bytesd_twice,
}
use rpi_stub.Command.Registers.{whole, word_answer, dword_answer}

len_loop-suc : (t : Bytes) (i : ℕ) → len_loop t (suc i) ≡ suc (len_loop t i)
unfolding len_loop
len_loop-suc [] i = refl
len_loop-suc (c ∷ t) i = ground (arith, len_loop-suc t (suc i))

suc_not_zero : (c : ℕ) → (suc c == 0) ≡ false
suc_not_zero c = ground arith

whole-cons : (c : ℕ) (t : Bytes) → whole (suc c ∷ t) ≡ suc c ∷ whole t
unfolding whole str_len len_loop
whole-cons c t = rw (suc_not_zero c) (ap (λ n. take n (suc c ∷ t)) (len_loop-suc t 0))

nibbles-cons_tail :
    (c : ℕ) (t u : Bytes) → nibbles t ≡ nibbles u → nibbles (c ∷ t) ≡ nibbles (c ∷ u)
unfolding nibbles
nibbles-cons_tail c t u h = elim (Option-cases (hex_to_nib c)) [
  | inl e ↦ rw (e, nibbles)
  | inr (v, e) ↦ rw (e, nibbles, h)
]

nibbles-whole : (t : Bytes) → nibbles (whole t) ≡ nibbles t
nibbles-whole [] = unfold nibbles whole in refl
nibbles-whole (zero ∷ t) = unfold nibbles whole str_len len_loop hex_to_nib in refl
nibbles-whole (suc c ∷ t) =
    ap nibbles (whole-cons c t) ∙ nibbles-cons_tail (suc c) (whole t) t (nibbles-whole t)

hex_to_word-whole :
    (t : Bytes)
    → (hex_to_word (whole t) ≡ hex_to_word t) × (hex_to_dword (whole t) ≡ hex_to_dword t)
hex_to_word-whole t = (
  (hex_to_word-value (whole t)).0
      ∙ ap (λ vs. value 0 (take 8 vs)) (nibbles-whole t)
      ∙ sym (hex_to_word-value t).0,
  (hex_to_word-value (whole t)).1
      ∙ ap (λ vs. value 0 (take 16 vs)) (nibbles-whole t)
      ∙ sym (hex_to_word-value t).1,
)

-- The text that answers a word is read back as that word.
pub word_answer_back : (v : ℕ) → v < 2 ^ 32 → swap_bytes (hex_to_word (word_answer v)) ≡ v
unfolding word_answer
word_answer_back v h =
    ap swap_bytes (
      (hex_to_word-whole (word_to_hex (swap_bytes v))).0
      ∙ (hex_to_word-word_to_hex (swap_bytes v) 0 (swap_bytes-lt v) (omega arith)).0)
    ∙ swap_bytes_twice v h

pub dword_answer_back : (v : ℕ) → v < 2 ^ 64 → swap_bytesd (hex_to_dword (dword_answer v)) ≡ v
unfolding dword_answer
dword_answer_back v h =
    ap swap_bytesd (
      (hex_to_word-whole (dword_to_hex (swap_bytesd v))).1
      ∙ (hex_to_word-word_to_hex 0 (swap_bytesd v) (omega arith) (swap_bytesd-lt v)).1)
    ∙ swap_bytesd_twice v h
