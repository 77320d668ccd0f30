-- ===== src/Decode/Load/Literal.antt =====
-- LDR of the PC with an immediate offset: the table (ARM_decode_table_data.h) and `arm_core_ldst`
-- (ARM_decode_table.c).
use rpi_stub.Common.{
  ℕ, ◌+◌, ◌-◌, ◌%◌, ◌<◌, ◌*◌, ◌/◌, ◌^◌, ◌≡◌, ◌≢◌, refl, ap, ◌∙◌, sym, Bool, true, false, ◌==◌,
  if◌then◌else◌, bit_and, bit_and-mask, bit_and-field, bit_and_comm, some, arith, ◌||◌,
}
use rpi_stub.Instr.Next.{NextAddr, arm_addr, unpred_addr, linear}
use rpi_stub.Instr.Word.{bit, bitrng, bits, bits_loop}
use rpi_stub.Instr.Condition.{field}
use rpi_stub.Stub.Memory.{load32}
use rpi_stub.Decode.Extra.{Extra, Decoder, core_ldst, arm_cldst_ldr_lbl}
use rpi_stub.Decode.Row.{entry}
use rpi_stub.Decode.Search.{fits}
use rpi_stub.Decode.Context.{stored, reg_r15, addr_lin}
use rpi_stub.Decode.Narrow.{candidate, dispatch-known, known-bitrng, known-bit}
use rpi_stub.Decode.Int32.{add32, sub32}
use rpi_stub.Decode.Return.{jump}
use rpi_stub.Decode.Return.Leads.{landing, jump-landing}
use rpi_stub.Decode.Load.{
  arm_core_ldst, by_index, postindexed, preindexed, at_offset, moved, fetch, ldst_offset, ldst_unp,
}
use rpi_stub.Decode.Decoder.{Machine, decode, decoders}

one_bit : (x i : ℕ) → bit_and (2 ^ i) x ≡ bit x i * 2 ^ i
unfolding bit
one_bit x i =
    let e : (2 ^ 1 - 1) * 2 ^ i ≡ 2 ^ i = omega arith in
    bit_and_comm (2 ^ i) x
    ∙ ap (λ m. bit_and x m) (sym e)
    ∙ bit_and-field i 1 x
    ∙ ap (λ b. b * 2 ^ i) (sym (bit_and-mask 1 (x / 2 ^ i)))

-- `bits` with the P- and the W-bit
offset_way : (x : ℕ) → bit x 21 ≡ 0 → bit x 24 ≡ 1 → bits x 0x01200000 ≡ 2
unfolding bits bits_loop
offset_way x w p =
    let low : bit_and 0x200000 x ≡ 0 = one_bit x 21 ∙ rw w refl in
    let high : bit_and 0x1000000 x ≡ 0x1000000 = one_bit x 24 ∙ rw p refl in rw (low, high) refl

literal_left :
    candidate 0x0f7ff000 0x051ff000 ≡ some (entry 0x041F0000 0x0E5F0000 arm_cldst_ldr_lbl core_ldst)
unfolding candidate fits
literal_left = refl

-- where the word is read: the saved PC plus or minus the immediate, by the U bit
unfoldable pub literal_address : ℕ → ℕ → ℕ
literal_address pc instr =
    if instr / 2 ^ 23 % 2 == 1
    then (pc + instr % 2 ^ 12) % 2 ^ 32
    else (pc + 2 ^ 32 - instr % 2 ^ 12) % 2 ^ 32

unfoldable pub literal_word : Machine → ℕ → ℕ
unfolding literal_address stored load32
literal_word k instr = load32 k.memory (literal_address (reg_r15 k.context) instr)

below_sub : (a b : ℕ) → b < 2 ^ 12 → a + (2 ^ 32 - b) ≡ a + 2 ^ 32 - b
below_sub a b h = omega arith

moved-literal : (pc instr : ℕ) → moved instr pc (bitrng instr 11 0) ≡ literal_address pc instr
unfolding moved add32 sub32 bit bitrng literal_address
moved-literal pc instr =
    let whole : instr / 2 ^ 0 ≡ instr = omega arith in
    let small : instr % 2 ^ 12 < 2 ^ 12 = omega arith in
    rw
      (
        bit_and-mask 1 (instr / 2 ^ 23),
        whole,
        bit_and-mask 12 instr,
        below_sub pc (instr % 2 ^ 12) small,
      )
      (ground arith)

word_offset :
    (k : Machine) (instr : ℕ)
    → bit_and instr 0x0f7ff000 ≡ 0x051ff000
    → at_offset k.context k.memory instr (ldst_offset k.context instr)
      ≡ arm_addr (literal_word k instr)
unfolding at_offset ldst_offset fetch literal_word
word_offset k instr known =
    let rn : bitrng instr 19 16 ≡ 15 = known-bitrng _ _ instr 19 16 15 known refl refl in
    let rt : bitrng instr 15 12 ≡ 15 = known-bitrng _ _ instr 15 12 15 known refl refl in
    let imm : bit instr 25 ≡ 0 = known-bit _ _ instr 25 0 known refl refl in
    let byte : bit instr 22 ≡ 0 = known-bit _ _ instr 22 0 known refl refl in
    let load : bit instr 20 ≡ 1 = known-bit _ _ instr 20 1 known refl refl in
    rw (rn, rt, imm, byte, load, moved-literal (reg_r15 k.context) instr) refl

third : (w : ℕ) (a b d : NextAddr) → w ≡ 2 → (if w == 0 then a else if w == 3 then b else d) ≡ d
third w a b d e = rw e refl

by_index_offset :
    (k : Machine) (instr : ℕ)
    → bit_and instr 0x0f7ff000 ≡ 0x051ff000
    → by_index k.context k.memory instr ≡ arm_addr (literal_word k instr)
unfolding by_index
by_index_offset k instr known =
    let w : bit instr 21 ≡ 0 = known-bit _ _ instr 21 0 known refl refl in
    let p : bit instr 24 ≡ 1 = known-bit _ _ instr 24 1 known refl refl in
    let offset = ldst_offset k.context instr in
    third (bits instr 0x01200000) (postindexed k.context k.memory instr offset)
      (preindexed k.context k.memory instr offset) _ (offset_way instr w p)
    ∙ word_offset k instr known

-- what `arm_core_ldst` does with a result
finish : Bool → NextAddr → NextAddr
finish unp retval =
    let placed = if retval.address == linear then retval else jump retval.address in
    if unp then unpred_addr placed else placed

finish-jump : (a : ℕ) → a ≢ linear → finish false (arm_addr a) ≡ jump a
unfolding finish
finish-jump a h = let far : (a == linear) ≡ false = ground arith in rw far refl

predictable :
    (instr : ℕ)
    → bit instr 21 ≡ 0
    → bit instr 25 ≡ 0
    → bitrng instr 15 12 ≡ 15
    → ldst_unp instr ≡ false
unfolding ldst_unp
predictable instr w imm rt = rw (w, imm, rt) (ground arith)

finished :
    (k : Machine) (instr a : ℕ) (x : Extra)
    → bitrng instr 15 12 ≡ 15
    → ldst_unp instr ≡ false
    → by_index k.context k.memory instr ≡ arm_addr a
    → arm_core_ldst k.context k.memory instr x ≡ finish false (arm_addr a)
unfolding arm_core_ldst finish
finished k instr a x rt unp here =
    let test : ((bitrng instr 19 16 == 15) || (bitrng instr 15 12 == 15)) ≡ true = ground arith in
    let chosen =
      ap (λ b. finish (ldst_unp instr) (if b then by_index k.context k.memory instr else addr_lin))
        test in
    chosen ∙ ap (finish (ldst_unp instr)) here ∙ ap (λ b. finish b (arm_addr a)) unp

-- LDR of the PC from a literal, under any condition but 15 and whatever the flags are: the word is
-- read at the saved PC plus or minus the immediate, as bit 23 says, modulo 2^32, without the 8 bytes
-- that the PC is ahead. A word that is a multiple of 4 leads to ARM code there, an odd word to Thumb
-- code there, and any other is unpredictable. The word 2^32 - 1 is excluded.
pub decode-ldr_literal :
    (k : Machine) (rest : Decoder → ℕ → Extra → NextAddr) (instr : ℕ)
    → field instr ≢ 15
    → bit_and instr 0x0f7ff000 ≡ 0x051ff000
    → literal_word k instr ≢ linear
    → decode k rest instr ≡ landing (literal_word k instr)
unfolding decode decoders
decode-ldr_literal k rest instr c known other =
    let d =
      dispatch-known (decoders k rest) 0x0f7ff000 0x051ff000 instr _ literal_left c known refl
        refl in
    let rt : bitrng instr 15 12 ≡ 15 = known-bitrng _ _ instr 15 12 15 known refl refl in
    let imm : bit instr 25 ≡ 0 = known-bit _ _ instr 25 0 known refl refl in
    let w : bit instr 21 ≡ 0 = known-bit _ _ instr 21 0 known refl refl in
    let here = by_index_offset k instr known in
    d
    ∙ finished k instr (literal_word k instr) arm_cldst_ldr_lbl rt (predictable instr w imm rt) here
    ∙ finish-jump (literal_word k instr) other
    ∙ jump-landing (literal_word k instr)
