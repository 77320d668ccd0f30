-- ===== src/Command/RegisterFile/Answer.antt =====
-- Which lengths of a packet the command G accepts (gdb.c).
use rpi_stub.Common.{
  ℕ, zero, suc, ◌+◌, ◌*◌, ◌≤◌, ◌<◌, ◌≡◌, [], ◌∷◌, Bytes, Bool, Option, none, some, true, false, inl,
  inr, Bool-cases, ltb, if◌then◌else◌, arith,
}
use rpi_stub.Command.Memory.{ok_text}
use rpi_stub.Command.Registers.{Bank, err_text, with_stored}
use rpi_stub.Command.RegisterFile.{
  put_half, skip_word, store_words, set_fpscr, set_cpsr, set_dummies, set_regs,
}

more_than : (a x y : ℕ) → ltb a x ≡ true → ltb a (x + y) ≡ true
more_than a x y h = ground arith

more_rounds : (n step len : ℕ) → len + suc n * step ≡ len + step + n * step
more_rounds n step len = grind arith

-- A loop ends where the packet is as long as what it has counted, and returns otherwise.
store_words-count :
    (put : Bank → ℕ → ℕ → Bank) (step packet_len : ℕ) (word : ℕ → ℕ) (n i len : ℕ) (b : Bank)
    → len ≤ packet_len
    → (store_words put step packet_len word n i len b).1
      ≡ (if ltb packet_len (len + n * step) then none else some (len + n * step))
unfolding store_words
store_words-count put step packet_len word zero i len b h = ground arith
store_words-count put step packet_len word (suc n) i len b h =
    rw (more_rounds n step len) (elim (Bool-cases (ltb packet_len (len + step))) [
      | inl e ↦ ground (arith, more_than packet_len (len + step) (n * step))
      | inr e ↦ ground (
        arith,
        store_words-count put step packet_len word n (i + 1) (len + step) (put b i (word i)),
      )
    ])

-- the answer behind the words of the vector registers
set_fpscr-answer :
    (packet_len : ℕ) (word : ℕ → ℕ) (r : Bank × Option ℕ) (len : ℕ)
    → len ≤ packet_len
    → r.1 ≡ (if ltb packet_len (len + 1024) then none else some (len + 1024))
    → (set_fpscr packet_len word r).1
      ≡ (if ltb packet_len (len + 1024) then err_text ∷ [] else ok_text ∷ [])
unfolding set_fpscr
set_fpscr-answer packet_len word (b, none) len h e = ground arith
set_fpscr-answer packet_len word (b, some n) len h e = ground arith

set_cpsr-answer_xml :
    (packet_len : ℕ) (word : ℕ → ℕ) (b : Bank) (len : ℕ)
    → len ≤ packet_len
    → (set_cpsr true packet_len word 16 (b, some len)).1
      ≡ (if ltb packet_len (len + 1032) then err_text ∷ [] else ok_text ∷ [])
unfolding set_cpsr
set_cpsr-answer_xml packet_len word b len h = elim (Bool-cases (ltb packet_len (len + 8))) [
  | inl e ↦ ground (arith, more_than packet_len (len + 8) 1024)
  | inr e ↦
      let after = with_stored b 16 (word 16) in
      let neon =
        store_words-count put_half 16 packet_len (λ i. word (17 + i)) 64 0 (len + 8) after
          (ground arith) in
      ground (
        arith,
        set_fpscr-answer packet_len word
            (store_words put_half 16 packet_len (λ i. word (17 + i)) 64 0 (len + 8) after) (len + 8)
            (ground arith) neon,
      )
]

counted_core :
    (packet_len n : ℕ)
    → some n ≡ (if ltb packet_len 128 then none else some 128)
    → (n ≡ 128) × (128 ≤ packet_len)
counted_core packet_len n e = ground arith

set_dummies-answer_xml :
    (packet_len : ℕ) (word : ℕ → ℕ) (r : Bank × Option ℕ)
    → r.1 ≡ (if ltb packet_len 128 then none else some 128)
    → (set_dummies true packet_len word r).1
      ≡ (if ltb packet_len 1160 then err_text ∷ [] else ok_text ∷ [])
unfolding set_dummies
set_dummies-answer_xml packet_len word (b, none) e = ground arith
set_dummies-answer_xml packet_len word (b, some n) e =
    let counted = counted_core packet_len n e in
    rw counted.0 (set_cpsr-answer_xml packet_len word b 128 counted.1)

set_cpsr-answer :
    (packet_len : ℕ) (word : ℕ → ℕ) (at : ℕ) (r : Bank × Option ℕ)
    → r.1 ≡ (if ltb packet_len 200 then none else some 200)
    → (set_cpsr false packet_len word at r).1
      ≡ (if ltb packet_len 200 then err_text ∷ [] else ok_text ∷ [])
unfolding set_cpsr
set_cpsr-answer packet_len word at (b, none) e = ground arith
set_cpsr-answer packet_len word at (b, some n) e = ground arith

set_dummies-answer :
    (packet_len : ℕ) (word : ℕ → ℕ) (r : Bank × Option ℕ)
    → r.1 ≡ (if ltb packet_len 128 then none else some 128)
    → (set_dummies false packet_len word r).1
      ≡ (if ltb packet_len 200 then err_text ∷ [] else ok_text ∷ [])
unfolding set_dummies
set_dummies-answer packet_len word (b, none) e = ground arith
set_dummies-answer packet_len word (b, some n) e =
    let counted = counted_core packet_len n e in
    let dummies = store_words skip_word 8 packet_len word 9 16 128 b in
    rw counted.0 (
      ground (
        arith,
        set_cpsr-answer packet_len word 25 dummies
            (store_words-count skip_word 8 packet_len word 9 16 128 b counted.1),
      ))

set_dummies-any :
    (xmlregs : Bool) (packet_len : ℕ) (word : ℕ → ℕ) (r : Bank × Option ℕ)
    → r.1 ≡ (if ltb packet_len 128 then none else some 128)
    → (set_dummies xmlregs packet_len word r).1
      ≡ (if ltb packet_len (if xmlregs then 1160 else 200) then err_text ∷ [] else ok_text ∷ [])
set_dummies-any true packet_len word r e = set_dummies-answer_xml packet_len word r e
set_dummies-any false packet_len word r e = set_dummies-answer packet_len word r e

not_empty : (packet_len : ℕ) → 0 < packet_len → ltb 0 packet_len ≡ true
not_empty packet_len h = ground arith

-- G answers a packet that is not empty with `OK` where it has at least 200 characters, for r0 to r15
-- and the dummy registers, or, where the client knows the vector registers, at least 1160; and with
-- `E00` where it has fewer.
pub set_regs-answer :
    (b : Bank) (buff packet : Bytes) (packet_len : ℕ)
    → 0 < packet_len
    → (set_regs b buff packet packet_len).1
      ≡ (if ltb packet_len (if b.xmlregs then 1160 else 200) then err_text ∷ [] else ok_text ∷ [])
unfolding set_regs
set_regs-answer b buff packet packet_len h = rw (not_empty packet_len h) (
    set_dummies-any b.xmlregs packet_len _ _
      (store_words-count with_stored 8 packet_len _ 16 0 0 b (omega arith)))
