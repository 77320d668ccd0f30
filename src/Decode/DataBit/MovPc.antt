-- ===== src/Decode/DataBit/MovPc.antt =====
-- MOV and MOVS into the PC: the table (ARM_decode_table_data.h), `arm_mux` and `arm_core_data_bit`
-- (ARM_decode_table.c).
use rpi_stub.Common.{
  ℕ, ◌≡◌, ◌≢◌, refl, ◌∙◌, Bool, true, false, ◌==◌, if◌then◌else◌, bit_and, some, inl, inr,
  Bool-cases, arith,
}
use rpi_stub.Instr.Next.{NextAddr, undef_addr, thumb_addr}
use rpi_stub.Instr.Word.{bit, bitrng}
use rpi_stub.Instr.Condition.{field}
use rpi_stub.Decode.Extra.{Extra, Decoder, mux, arm_mux_lsl_i_mov_pc}
use rpi_stub.Decode.Row.{entry}
use rpi_stub.Decode.Search.{fits}
use rpi_stub.Decode.Context.{Context, operand, reg_cpsr, reg_spsr, addr_lin}
use rpi_stub.Decode.Narrow.{candidate, dispatch-known, known-bitrng, known-bit}
use rpi_stub.Decode.Return.{returned_bit, by_mode}
use rpi_stub.Decode.DataBit.{arm_core_data_bit, bit_case, bit_result}
use rpi_stub.Decode.Mux.{arm_mux, mux_case, lsl_or_mov_pc, conditional}
use rpi_stub.Decode.Decoder.{Machine, decode, decoders}

mov_left :
    candidate 0x0ff0fff0 0x01a0f000 ≡ some (entry 0x01A0F000 0x0FE0FFF0 arm_mux_lsl_i_mov_pc mux)
unfolding candidate fits
mov_left = refl

movs_left :
    candidate 0x0ff0fff0 0x01b0f000 ≡ some (entry 0x01A0F000 0x0FE0FFF0 arm_mux_lsl_i_mov_pc mux)
unfolding candidate fits
movs_left = refl

same_branches : (b : Bool) (x : NextAddr) → (if b then x else x) ≡ x
same_branches true x = refl
same_branches false x = refl

-- MOV of a register into the PC, under any condition but 15, is taken to go on to the next
-- instruction.
pub decode-mov_pc :
    (k : Machine) (rest : Decoder → ℕ → Extra → NextAddr) (instr : ℕ)
    → field instr ≢ 15
    → bit_and instr 0x0ff0fff0 ≡ 0x01a0f000
    → decode k rest instr ≡ addr_lin
unfolding decode decoders arm_mux mux_case lsl_or_mov_pc arm_core_data_bit bit_case conditional
decode-mov_pc k rest instr c known =
    let d =
      dispatch-known (decoders k rest) 0x0ff0fff0 0x01a0f000 instr _ mov_left c known refl refl in
    let shift : bitrng instr 11 7 ≡ 0 = known-bitrng _ _ instr 11 7 0 known refl refl in
    let s : bit instr 20 ≡ 0 = known-bit _ _ instr 20 0 known refl refl in
    d ∙ rw (shift, s) (same_branches _ addr_lin)

mode_undefined :
    (c : Context) (instr x : ℕ)
    → bit instr 20 ≡ 1
    → bit_and (reg_cpsr c) 0x1f ≢ 0x10
    → bit_and (reg_cpsr c) 0x1f ≢ 0x1a
    → bit_and (reg_cpsr c) 0x1f ≢ 0x1f
    → conditional (reg_cpsr c) instr (returned_bit c instr x)
      ≡ (if bit (reg_spsr c) 5 == 0 then undef_addr else thumb_addr x)
unfolding conditional returned_bit by_mode
mode_undefined c instr x s usr hyp sys =
    let usr' : (bit_and (reg_cpsr c) 0x1f == 0x10) ≡ false = ground arith in
    let hyp' : (bit_and (reg_cpsr c) 0x1f == 0x1a) ≡ false = ground arith in
    let sys' : (bit_and (reg_cpsr c) 0x1f == 0x1f) ≡ false = ground arith in
    elim (Bool-cases (bit (reg_spsr c) 5 == 0)) [
      | inl t ↦ rw (s, usr', sys', hyp', t) refl
      | inr t ↦ rw (s, usr', sys', hyp', t) refl
    ]

-- MOVS of a register into the PC, the usual return from an exception, under any condition but 15 and
-- outside the modes USR, SYS and HYP, is undefined where the saved status asks for ARM code, and
-- leads to the register's value where it asks for Thumb code.
pub decode-movs_pc :
    (k : Machine) (rest : Decoder → ℕ → Extra → NextAddr) (instr : ℕ)
    → field instr ≢ 15
    → bit_and instr 0x0ff0fff0 ≡ 0x01b0f000
    → bit_and (reg_cpsr k.context) 0x1f ≢ 0x10
    → bit_and (reg_cpsr k.context) 0x1f ≢ 0x1a
    → bit_and (reg_cpsr k.context) 0x1f ≢ 0x1f
    → decode k rest instr ≡ (
        if bit (reg_spsr k.context) 5 == 0
        then undef_addr
        else thumb_addr (operand k.context (bitrng instr 3 0)))
unfolding decode decoders arm_mux mux_case lsl_or_mov_pc arm_core_data_bit bit_case bit_result
decode-movs_pc k rest instr c known usr hyp sys =
    let d =
      dispatch-known (decoders k rest) 0x0ff0fff0 0x01b0f000 instr _ movs_left c known refl refl in
    let shift : bitrng instr 11 7 ≡ 0 = known-bitrng _ _ instr 11 7 0 known refl refl in
    let pc : bitrng instr 15 12 ≡ 15 = known-bitrng _ _ instr 15 12 15 known refl refl in
    let s : bit instr 20 ≡ 1 = known-bit _ _ instr 20 1 known refl refl in
    d ∙ rw (shift, s, pc) (mode_undefined k.context instr _ s usr hyp sys)
