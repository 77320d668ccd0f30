-- ===== src/Decode/DataReg/Alu.antt =====
-- `arm_core_data_std_r` (ARM_decode_table.c) against the operations of the architecture, by the
-- opcodes of the table (ARM_decode_table_data.h).
use rpi_stub.Common.{
  ℕ, ◌/◌, ◌%◌, ◌^◌, ◌<◌, ◌≡◌, ◌≢◌, refl, ap, ◌∙◌, true, false, Option, none, some, ◌⊎◌, inl, inr,
  Option-cases, arith,
}
use rpi_stub.Instr.Next.{NextAddr, arm_addr}
use rpi_stub.Decode.Extra.{
  Extra, arm_ret_adc_r, arm_ret_add_r, arm_ret_and_r, arm_ret_bic_r, arm_ret_eor_r, arm_ret_mvn_r,
  arm_ret_rsb_r, arm_ret_rsc_r, arm_ret_sbc_r, arm_ret_sub_r,
}
use rpi_stub.Decode.Row.{DecTblEntry, hit}
use rpi_stub.Decode.Table.{decode_table}
use rpi_stub.Decode.Context.{Context, carry}
use rpi_stub.Decode.Int32.{add32, not32}
use rpi_stub.Decode.Shift.{shift_imm, kept}
use rpi_stub.Decode.Return.{returned}
use rpi_stub.Decode.Return.Leads.{leads, returned-leads}
use rpi_stub.Decode.Alu.Operand.{
  ahead, operand-ahead, carry_flag, carry-carry_flag, carry_flag-lt, bitrng-digits, shifted,
  shift_imm-shifted, shift_imm-lt,
}
use rpi_stub.Decode.Alu.Opcode.{all_opcodes, has_opcode, instr_opcode}
use mathlib.Core.List.{Memᴰ}
use rpi_stub.Decode.Alu.{alu, carry_below, adc_lem, sub_lem, sbc_lem, rsc_lem}
use rpi_stub.Decode.DataReg.{arm_core_data_std_r, compares_r, to_pc_r, operate_r, return_r}

-- the opcode of a row with the PC as Rd, but for ORR
unfoldable pub opcode_r : Extra → Option ℕ
opcode_r arm_ret_adc_r = some 5
opcode_r arm_ret_add_r = some 4
opcode_r arm_ret_and_r = some 0
opcode_r arm_ret_bic_r = some 14
opcode_r arm_ret_eor_r = some 1
opcode_r arm_ret_mvn_r = some 15
opcode_r arm_ret_rsb_r = some 3
opcode_r arm_ret_rsc_r = some 7
opcode_r arm_ret_sbc_r = some 6
opcode_r arm_ret_sub_r = some 2
opcode_r _ = none

-- The opcodes are those of the table.
opcodes_table : all_opcodes opcode_r decode_table ≡ true
unfolding all_opcodes has_opcode opcode_r decode_table
opcodes_table = refl

at_opcode :
    (c : Context) (a b n k : ℕ) (r : NextAddr)
    → some n ≡ some k
    → r ≡ arm_addr (alu n a b (carry c))
    → r ≡ arm_addr (alu k a b (carry c))
at_opcode c a b n k r h e =
    let same : n ≡ k = cc in e ∙ ap (λ i. arm_addr (alu i a b (carry c))) same

operate-alu :
    (c : Context) (a b : ℕ) (x : Extra) (k : ℕ)
    → opcode_r x ≡ some k
    → a < 2 ^ 32
    → b < 2 ^ 32
    → operate_r c a b x ≡ arm_addr (alu k a b (carry c))
unfolding operate_r opcode_r alu add32 not32
operate-alu c a b arm_ret_adc_r k h ha hb =
    at_opcode c a b 5 k _ h (ap arm_addr (adc_lem a b (carry c)))
operate-alu c a b arm_ret_add_r k h ha hb = at_opcode c a b 4 k _ h (refl)
operate-alu c a b arm_ret_and_r k h ha hb = at_opcode c a b 0 k _ h (refl)
operate-alu c a b arm_ret_bic_r k h ha hb = at_opcode c a b 14 k _ h (refl)
operate-alu c a b arm_ret_eor_r k h ha hb = at_opcode c a b 1 k _ h (refl)
operate-alu c a b arm_ret_mvn_r k h ha hb = at_opcode c a b 15 k _ h (refl)
operate-alu c a b arm_ret_rsb_r k h ha hb = at_opcode c a b 3 k _ h (ap arm_addr (sub_lem b a ha))
operate-alu c a b arm_ret_rsc_r k h ha hb =
    at_opcode c a b 7 k _ h (ap arm_addr (rsc_lem a b (carry c) ha (carry_below c)))
operate-alu c a b arm_ret_sbc_r k h ha hb =
    at_opcode c a b 6 k _ h (ap arm_addr (sbc_lem a b (carry c) hb (carry_below c)))
operate-alu c a b arm_ret_sub_r k h ha hb = at_opcode c a b 2 k _ h (ap arm_addr (sub_lem a b hb))
operate-alu c a b _ k h ha hb = absurd cc

-- the other switches for these rows
ret-cases :
    (c : Context) (instr : ℕ) (v : NextAddr) (x : Extra) (k : ℕ)
    → opcode_r x ≡ some k
    → (return_r c instr v x ≡ returned c instr v) × (compares_r x ≡ false)
unfolding opcode_r return_r compares_r
ret-cases c instr v arm_ret_adc_r k h = (refl, refl)
ret-cases c instr v arm_ret_add_r k h = (refl, refl)
ret-cases c instr v arm_ret_and_r k h = (refl, refl)
ret-cases c instr v arm_ret_bic_r k h = (refl, refl)
ret-cases c instr v arm_ret_eor_r k h = (refl, refl)
ret-cases c instr v arm_ret_mvn_r k h = (refl, refl)
ret-cases c instr v arm_ret_rsb_r k h = (refl, refl)
ret-cases c instr v arm_ret_rsc_r k h = (refl, refl)
ret-cases c instr v arm_ret_sbc_r k h = (refl, refl)
ret-cases c instr v arm_ret_sub_r k h = (refl, refl)
ret-cases c instr v _ k h = absurd cc

kept-same : (a kind n : ℕ) → (kind ≢ 3) ⊎ (n ≡ 0) → kept a kind n ≡ a
unfolding kept
kept-same a kind n h = ground arith

-- the operands of an instruction with a shifted register, by the architecture
unfoldable pub first_operand : Context → ℕ → ℕ
unfolding ahead
first_operand c instr = ahead c (instr / 2 ^ 16 % 2 ^ 4)

unfoldable pub second_operand : Context → ℕ → ℕ
unfolding ahead shifted carry_flag
second_operand c instr =
    shifted (carry_flag c) (ahead c (instr % 2 ^ 4)) (instr / 2 ^ 5 % 2 ^ 2) (instr / 2 ^ 7 % 2 ^ 5)

-- the code with its operands as the architecture has them
operands-alu :
    (c : Context) (instr : ℕ) (x : Extra) (k : ℕ)
    → opcode_r x ≡ some k
    → instr / 2 ^ 12 % 2 ^ 4 ≡ 15
    → (instr / 2 ^ 5 % 2 ^ 2 ≢ 3) ⊎ (instr / 2 ^ 7 % 2 ^ 5 ≡ 0)
    → ahead c (instr / 2 ^ 16 % 2 ^ 4) < 2 ^ 32
    → ahead c (instr % 2 ^ 4) < 2 ^ 32
    → arm_core_data_std_r c instr x
      ≡ leads c instr (alu k (first_operand c instr) (second_operand c instr) (carry_flag c))
unfolding arm_core_data_std_r to_pc_r first_operand second_operand
operands-alu c instr x k h pc shift small small' =
    let whole : instr / 2 ^ 0 ≡ instr = omega arith in
    let rn = ahead c (instr / 2 ^ 16 % 2 ^ 4) in
    let rm = ahead c (instr % 2 ^ 4) in
    let kind = instr / 2 ^ 5 % 2 ^ 2 in
    let n = instr / 2 ^ 7 % 2 ^ 5 in
    let flag = carry_flag c in
    let few : n < 32 = omega arith in
    let kinds : kind < 4 = omega arith in
    let word = shift_imm-lt flag rm kind n small' (carry_flag-lt c) few shift kinds in
    let e =
      operate-alu c rn (shift_imm flag rm kind n) x k h small word
      ∙ ap (λ o. arm_addr (alu k rn (shift_imm flag rm kind n) o)) (carry-carry_flag c)
      ∙ ap (λ o. arm_addr (alu k rn o flag))
          (shift_imm-shifted flag rm kind n small' few shift kinds) in
    let op2 = shifted flag rm kind n in
    let (ret, compare) = ret-cases c instr (arm_addr (alu k rn op2 flag)) x k h in
    rw
      (
        compare,
        bitrng-digits instr 15 12,
        bitrng-digits instr 11 7,
        bitrng-digits instr 6 5,
        bitrng-digits instr 19 16,
        bitrng-digits instr 3 0,
        whole,
        pc,
        operand-ahead c (instr / 2 ^ 16 % 2 ^ 4),
        operand-ahead c (instr % 2 ^ 4),
        carry-carry_flag c,
        kept-same rn kind n shift,
        e,
        ret,
      )
      (returned-leads c instr (alu k rn op2 flag))

-- For every row of the table for data processing with a shifted register and the PC as Rd, other than
-- ORR, and an instruction that matches it, with a shift other than ROR with a count, and with words in
-- its registers: the result is that of the architecture's operation with the opcode in bits 24 to 21 of
-- the instruction, on the register Rn and the register Rm shifted as bits 11 to 5 say, the PC read 8
-- ahead, and leads where the S bit, the saved status and its lowest bits say.
pub arm_core_data_std_r-alu :
    (c : Context) (instr : ℕ) (e : DecTblEntry)
    → Memᴰ e decode_table
    → opcode_r e.extra ≢ none
    → hit instr e ≡ true
    → instr / 2 ^ 12 % 2 ^ 4 ≡ 15
    → (instr / 2 ^ 5 % 2 ^ 2 ≢ 3) ⊎ (instr / 2 ^ 7 % 2 ^ 5 ≡ 0)
    → ahead c (instr / 2 ^ 16 % 2 ^ 4) < 2 ^ 32
    → ahead c (instr % 2 ^ 4) < 2 ^ 32
    → arm_core_data_std_r c instr e.extra
      ≡ leads c instr (
          alu
            (instr / 2 ^ 21 % 2 ^ 4)
            (first_operand c instr)
            (second_operand c instr)
            (carry_flag c))
arm_core_data_std_r-alu c instr e m known h pc shift small small' =
    elim (Option-cases (opcode_r e.extra)) [
      | inl q ↦ absurd (known q)
      | inr (k, q) ↦
          operands-alu c instr e.extra k q pc shift small small'
          ∙ ap
              (λ o.
                leads c instr
                  (alu o (first_operand c instr) (second_operand c instr) (carry_flag c)))
              (instr_opcode opcode_r e instr k opcodes_table m h q)
    ]
