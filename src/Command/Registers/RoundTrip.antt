-- ===== src/Command/Registers/RoundTrip.antt =====
-- The commands p and P (gdb.c), one behind the other.
use rpi_stub.Common.{
  ℕ, ◌-◌, ◌^◌, ◌<◌, ◌≡◌, ◌≢◌, sym, [], ◌∷◌, Bytes, length, get_or, true, inl, inr, Bool-cases, ◌⊎◌,
  arith, get_or-set_ne, get_or-set_self, ◌∙◌, ap, subst, refl, ◌++◌, All, ◌+◌, ltb,
}
use rpi_stub.Util.Hex.{hex_to_word, hex_to_dword}
use rpi_stub.Util.Swap.{swap_bytes, swap_bytesd}
use rpi_stub.Decode.Context.{stored}
use rpi_stub.Command.Memory.{ok_text}
use rpi_stub.Command.Registers.Answer.{word_answer_back, dword_answer_back}
use rpi_stub.Command.Argument.Text.{IsArgument, argument_in-text}
use rpi_stub.Command.Registers.{
  read_reg, write_reg, Bank, word_answer, dword_answer, reg_answer, write_reg_at, with_stored,
  with_neon, with_fpscr,
}

-- The registers in their numbers of words and widths.
pub record IsBank (b : Bank) : Type 0 where
  pub storage_length : length b.context.storage ≡ 18
  pub neon_length : length b.neon ≡ 32
  pub stored_lt : (i : ℕ) → stored b.context i < 2 ^ 32
  pub neon_lt : (i : ℕ) → get_or b.neon i 0 < 2 ^ 64
  pub fpscr_lt : b.fpscr < 2 ^ 32

-- The registers that the client may write: r0 to r15, the CPSR, and those of the vector unit where
-- it knows them.
abbrev pub IsRegister : Bank → ℕ → Type 0
IsRegister b reg =
    (reg < 16) ⊎ ((reg ≡ 25) ⊎ ((b.xmlregs ≡ true) × (((25 < reg) × (reg < 58)) ⊎ (reg ≡ 58))))

-- what p answers for a register of each kind
reg_answer_core :
    (c : Bank) (u reg : ℕ) → reg < 16 → reg_answer c u reg ≡ word_answer (stored c.context reg)
unfolding reg_answer
reg_answer_core c u reg h = ground arith

reg_answer_cpsr : (c : Bank) (u : ℕ) → reg_answer c u 25 ≡ word_answer (stored c.context 16)
unfolding reg_answer
reg_answer_cpsr c u = ground arith

reg_answer_neon :
    (c : Bank) (u reg : ℕ)
    → c.xmlregs ≡ true
    → 25 < reg
    → reg < 58
    → reg_answer c u reg ≡ dword_answer (get_or c.neon (reg - 26) 0)
unfolding reg_answer
reg_answer_neon c u reg hx hl hr = ground arith

reg_answer_fpscr : (c : Bank) (u : ℕ) → c.xmlregs ≡ true → reg_answer c u 58 ≡ word_answer c.fpscr
unfolding reg_answer
reg_answer_fpscr c u hx = ground arith

-- what P writes for a register of each kind
write_reg_at_core :
    (b : Bank) (reg : ℕ) (text : Bytes)
    → reg < 16
    → write_reg_at b (reg, text) ≡ (with_stored b reg (swap_bytes (hex_to_word text)), ok_text ∷ [])
unfolding write_reg_at
write_reg_at_core b reg text h = ground arith

write_reg_at_cpsr :
    (b : Bank) (text : Bytes)
    → write_reg_at b (25, text) ≡ (with_stored b 16 (swap_bytes (hex_to_word text)), ok_text ∷ [])
unfolding write_reg_at
write_reg_at_cpsr b text = ground arith

write_reg_at_neon :
    (b : Bank) (reg : ℕ) (text : Bytes)
    → b.xmlregs ≡ true
    → 25 < reg
    → reg < 58
    → write_reg_at b (reg, text)
      ≡ (with_neon b (reg - 26) (swap_bytesd (hex_to_dword text)), ok_text ∷ [])
unfolding write_reg_at
write_reg_at_neon b reg text hx hl hr = ground arith

write_reg_at_fpscr :
    (b : Bank) (text : Bytes)
    → b.xmlregs ≡ true
    → write_reg_at b (58, text) ≡ (with_fpscr b (swap_bytes (hex_to_word text)), ok_text ∷ [])
unfolding write_reg_at
write_reg_at_fpscr b text hx = ground arith

-- the registers that P leaves alone
stored_other :
    (b : Bank) (u reg other v : ℕ)
    → reg < 16
    → other ≢ reg
    → reg_answer (with_stored b reg v) u other ≡ reg_answer b u other
unfolding reg_answer with_stored stored
stored_other b u reg other v h ne = ground (
  arith,
  get_or-set_ne b.context.storage reg other v 0 (λ e. ne (sym e)),
  get_or-set_ne b.context.storage reg 16 v 0 (omega arith),
)

cpsr_other :
    (b : Bank) (u other v : ℕ)
    → other ≢ 25
    → reg_answer (with_stored b 16 v) u other ≡ reg_answer b u other
unfolding reg_answer with_stored stored
cpsr_other b u other v ne = elim (Bool-cases (ltb other 16)) [
  | inl e ↦ ground (arith, get_or-set_ne b.context.storage 16 other v 0 (ground arith))
  | inr e ↦ ground arith
]

neon_other :
    (b : Bank) (u reg other v : ℕ)
    → 25 < reg
    → other ≢ reg
    → reg_answer (with_neon b (reg - 26) v) u other ≡ reg_answer b u other
unfolding reg_answer with_neon
neon_other b u reg other v h ne = elim (Bool-cases (ltb 25 other)) [
  | inl e ↦ ground (arith, get_or-set_ne b.neon (reg - 26) (other - 26) v 0 (ground arith))
  | inr e ↦ ground arith
]

fpscr_other :
    (b : Bank) (u other v : ℕ)
    → other ≢ 58
    → reg_answer (with_fpscr b v) u other ≡ reg_answer b u other
unfolding reg_answer with_fpscr
fpscr_other b u other v ne = ground arith

stored-with_stored :
    (b : Bank) (i v : ℕ) → IsBank b → i < 18 → stored (with_stored b i v).context i ≡ v
unfolding with_stored stored
stored-with_stored b i v hb h =
    get_or-set_self b.context.storage i v 0 (omega (arith, hb.storage_length))

neon-with_neon : (b : Bank) (i v : ℕ) → IsBank b → i < 32 → get_or (with_neon b i v).neon i 0 ≡ v
unfolding with_neon
neon-with_neon b i v hb h = get_or-set_self b.neon i v 0 (omega (arith, hb.neon_length))

with_neon_xmlregs : (b : Bank) (i v : ℕ) → (with_neon b i v).xmlregs ≡ b.xmlregs
unfolding with_neon
with_neon_xmlregs b i v = refl

with_fpscr_xmlregs : (b : Bank) (v : ℕ) → (with_fpscr b v).xmlregs ≡ b.xmlregs
unfolding with_fpscr
with_fpscr_xmlregs b v = refl

fpscr-with_fpscr : (b : Bank) (v : ℕ) → (with_fpscr b v).fpscr ≡ v
unfolding with_fpscr
fpscr-with_fpscr b v = refl

-- What p answers for a register of one bank is written by P to another: P answers `OK`, p then answers
-- the same, and for another register what it did.
abbrev Kept : Bank → Bank → ℕ → ℕ → ℕ → ℕ → Type 0
Kept b c u unset reg other =
    let (after, out) = write_reg_at b (reg, reg_answer c u reg) in
    (out ≡ ok_text ∷ [])
    × (reg_answer after unset reg ≡ reg_answer c u reg)
    × (reg_answer after unset other ≡ reg_answer b unset other)

module _ (b c : Bank) (u unset other : ℕ) (hb : IsBank b) (hc : IsBank c) where
  core-Kept : (reg : ℕ) → reg < 16 → other ≢ reg → Kept b c u unset reg other
  core-Kept reg h ne =
      let v = stored c.context reg in
      rw
        (
          reg_answer_core c u reg h,
          write_reg_at_core b reg (word_answer v) h,
          word_answer_back v (hc.stored_lt reg),
        )
        (
          refl,
          reg_answer_core (with_stored b reg v) unset reg h
              ∙ ap word_answer (stored-with_stored b reg v hb (omega arith)),
          stored_other b unset reg other v h ne,
        )

  cpsr-Kept : other ≢ 25 → Kept b c u unset 25 other
  cpsr-Kept ne =
      let v = stored c.context 16 in
      rw
        (
          reg_answer_cpsr c u,
          write_reg_at_cpsr b (word_answer v),
          word_answer_back v (hc.stored_lt 16),
        )
        (
          refl,
          reg_answer_cpsr (with_stored b 16 v) unset
              ∙ ap word_answer (stored-with_stored b 16 v hb (omega arith)),
          cpsr_other b unset other v ne,
        )

  neon-Kept :
      (reg : ℕ)
      → b.xmlregs ≡ true
      → c.xmlregs ≡ true
      → 25 < reg
      → reg < 58
      → other ≢ reg
      → Kept b c u unset reg other
  neon-Kept reg hx hy hl hr ne =
      let v = get_or c.neon (reg - 26) 0 in
      rw
        (
          reg_answer_neon c u reg hy hl hr,
          write_reg_at_neon b reg (dword_answer v) hx hl hr,
          dword_answer_back v (hc.neon_lt (reg - 26)),
        )
        (
          refl,
          reg_answer_neon (with_neon b (reg - 26) v) unset reg
                (with_neon_xmlregs b (reg - 26) v ∙ hx) hl hr
              ∙ ap dword_answer (neon-with_neon b (reg - 26) v hb (omega arith)),
          neon_other b unset reg other v hl ne,
        )

  fpscr-Kept : b.xmlregs ≡ true → c.xmlregs ≡ true → other ≢ 58 → Kept b c u unset 58 other
  fpscr-Kept hx hy ne =
      rw
        (
          reg_answer_fpscr c u hy,
          write_reg_at_fpscr b (word_answer c.fpscr) hx,
          word_answer_back c.fpscr hc.fpscr_lt,
        )
        (
          refl,
          reg_answer_fpscr (with_fpscr b c.fpscr) unset (with_fpscr_xmlregs b c.fpscr ∙ hx)
              ∙ ap word_answer (fpscr-with_fpscr b c.fpscr),
          fpscr_other b unset other c.fpscr ne,
        )

  write_reg_at-Kept :
      (reg : ℕ)
      → b.xmlregs ≡ c.xmlregs
      → IsRegister c reg
      → other ≢ reg
      → Kept b c u unset reg other
  write_reg_at-Kept reg hx (inl h) ne = core-Kept reg h ne
  write_reg_at-Kept reg hx (inr (inl h)) ne =
      subst (λ r. Kept b c u unset r other) (sym h) (cpsr-Kept (λ e. ne (e ∙ sym h)))
  write_reg_at-Kept reg hx (inr (inr (hy, inl (hl, hr)))) ne = neon-Kept reg (hx ∙ hy) hy hl hr ne
  write_reg_at-Kept reg hx (inr (inr (hy, inr h))) ne =
      subst (λ r. Kept b c u unset r other) (sym h) (fpscr-Kept (hx ∙ hy) hy (λ e. ne (e ∙ sym h)))

write_reg-text :
    (b : Bank) (name text : Bytes) (packet_len : ℕ)
    → All (IsArgument b'=') name
    → length name + 1 < 32
    → 0 < packet_len
    → write_reg b (name ++ b'=' ∷ text) packet_len ≡ write_reg_at b (hex_to_word name, text)
unfolding write_reg
write_reg-text b name text packet_len hn hl h =
    ground arith ∙ ap (write_reg_at b) (argument_in-text 32 b'=' name text hn hl)

read_reg-answer :
    (b : Bank) (unset : ℕ) (packet : Bytes) (packet_len : ℕ)
    → 0 < packet_len
    → read_reg b unset packet packet_len ≡ reg_answer b unset (hex_to_word packet) ∷ []
unfolding read_reg
read_reg-answer b unset packet packet_len h = ground arith

-- What p answers for a register of one bank, P writes to another: r0 to r15, the CPSR and, where the
-- client knows them, d0 to d31 and the FPSCR, by a number of fewer than 31 characters in front of its
-- `=`, in packets that are not empty, with banks that agree on what the client knows. P answers `OK`,
-- p then answers the same text, and for every other number p answers what it did.
pub read_reg-write_reg :
    (b c : Bank) (u unset other : ℕ) (name : Bytes) (write_len read_len : ℕ)
    → IsBank b
    → IsBank c
    → b.xmlregs ≡ c.xmlregs
    → All (IsArgument b'=') name
    → length name + 1 < 32
    → IsRegister c (hex_to_word name)
    → other ≢ hex_to_word name
    → 0 < write_len
    → 0 < read_len
    → let answer = reg_answer c u (hex_to_word name) in
      let (after, out) = write_reg b (name ++ b'=' ∷ answer) write_len in
      (out ≡ ok_text ∷ [])
      × (read_reg after unset name read_len ≡ answer ∷ [])
      × (reg_answer after unset other ≡ reg_answer b unset other)
read_reg-write_reg b c u unset other name write_len read_len hb hc hx hn hl hr ne hw hq =
    let kept = write_reg_at-Kept b c u unset other hb hc (hex_to_word name) hx hr ne in
    rw (write_reg-text b name (reg_answer c u (hex_to_word name)) write_len hn hl hw)
      (kept.0, read_reg-answer _ unset name read_len hq ∙ ap (◌∷ []) kept.1, kept.2)
