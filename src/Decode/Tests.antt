-- ===== src/Decode/Tests.antt =====
-- The decoder at concrete instructions.
use rpi_stub.Common.{
  ℕ, zero, suc, List, Option, none, some, ◌+◌, ◌%◌, ◌^◌, ◌≤◌, ◌≡◌, refl, [], ◌∷◌, ◌⊎◌, inl, inr,
  if◌then◌else◌, true, ◌==◌, bit_and, arith,
}
use mathlib.Core.List.{Memᴰ}
use rpi_stub.Instr.Next.{NextAddr, arm_addr, thumb_addr, undef_addr, next_address}
use rpi_stub.Instr.Word.{bit, bitrng}
use rpi_stub.Instr.Condition.{field, holds, will_branch}
use rpi_stub.Stub.Memory.{Memory, load32, store, store32}
use rpi_stub.Decode.Extra.{
  Extra, Decoder, arm_cldstm_pop_r, core_ldstm, core_data_std_r, arm_ret_sub_r,
}
use rpi_stub.Decode.Row.{DecTblEntry, entry, hit}
use rpi_stub.Decode.Table.{decode_table}
use rpi_stub.Decode.Search.{dispatch}
use rpi_stub.Decode.Specific.{width, dispatch_most_specific, ones}
use rpi_stub.Decode.Context.{
  Context, stored, operand, reg_cpsr, reg_r15, reg_spsr, registers, addr_lin,
}
use rpi_stub.Decode.Int32.{div32, size}
use rpi_stub.Decode.Alu.Operand.{ahead, carry_flag}
use rpi_stub.Decode.Return.Leads.{landing, leads}
use rpi_stub.Decode.Alu.{alu}
use rpi_stub.Decode.Decoder.{Machine, decode}
use rpi_stub.Decode.Branch.Next.{target, next_address-branch}
use rpi_stub.Decode.Branch.Register.{exchange, decode-bx}
use rpi_stub.Decode.DataBit.MovPc.{decode-mov_pc, decode-movs_pc}
use rpi_stub.Decode.DataReg.{arm_core_data_std_r}
use rpi_stub.Decode.DataReg.Alu.{opcode_r, first_operand, second_operand, arm_core_data_std_r-alu}
use rpi_stub.Decode.Divide.{signed_quotient}
use rpi_stub.Decode.Divide.Round.{signed_quotient-div32}
use rpi_stub.Decode.Load.Literal.{literal_word, decode-ldr_literal}
use rpi_stub.Decode.LoadMultiple.{pc_slot}
use rpi_stub.Decode.LoadMultiple.Slot.{start, last, pc_slot-start}
use rpi_stub.Decode.LoadMultiple.Pop.{return_word, decode-pop}

-- r1 and r2 are 3 and -9, r13 and r14 are 0x9000 and 0x8021, the PC is 0x8000; the CPSR has Z and C
-- and the mode SVC, the SPSR the mode USR.
abbrev saved : Context
saved = record {
  storage =
      0 ∷ 3 ∷ 0xfffffff7 ∷ 0 ∷ 0 ∷ 0 ∷ 0 ∷ 0 ∷ 0 ∷ 0 ∷ 0 ∷ 0 ∷ 0 ∷ 0x9000 ∷ 0x8021 ∷ 0x8000
      ∷ 0x60000013 ∷ 0x10 ∷ [];
}

-- `beq .+16`, two words on the stack, and a literal
abbrev memory_at : Memory
memory_at = store32 (store32 (store32 (λ q. 0) 0x8000 0x0a000002) 0x9004 0x8104) 0x8010 0x8200

abbrev machine : Machine
machine = record {
  context = saved;
  memory = memory_at;
  system = record { elr_hyp = 0; hcr = 0; scr = 0; nsacr = 0 };
  uninit = 0;
}

abbrev others : Decoder → ℕ → Extra → NextAddr
others f instr x = undef_addr

abbrev pop_one_row : DecTblEntry
pop_one_row = entry 0x049D0004 0x0FFF0FFE arm_cldstm_pop_r core_ldstm

first_member : Memᴰ pop_one_row decode_table
unfolding decode_table
first_member = Memᴰ.head refl

first_hit : hit 0xe49df004 pop_one_row ≡ true
unfolding hit
first_hit = refl

dispatch_most_specific_example :
    (e : DecTblEntry) × Memᴰ e decode_table
    × (hit 0xe49df004 e ≡ true)
    × (dispatch others 0xe49df004 ≡ others e.decoder 0xe49df004 e.extra)
    × ((r : DecTblEntry) → Memᴰ r decode_table → hit 0xe49df004 r ≡ true → width r ≤ width e)
dispatch_most_specific_example =
    dispatch_most_specific others 0xe49df004 pop_one_row first_member first_hit

next_address-branch_example :
    next_address (decode machine others) (registers saved) memory_at 0x8000
    ≡ arm_addr (
        if holds (field (load32 memory_at 0x8000)) (field (reg_cpsr saved))
        then target saved (load32 memory_at 0x8000)
        else (reg_r15 saved + 4) % 2 ^ 32)
unfolding load32 stored store
next_address-branch_example =
    next_address-branch machine others memory_at 0x8000 refl refl refl refl (inl refl) (omega arith)
      (omega arith) (omega arith) (omega arith)

decode-bx_example : decode machine others 0xe12fff1e ≡ (
    if will_branch (reg_cpsr saved) 0xe12fff1e
    then exchange (stored saved (0xe12fff1e % 16))
    else addr_lin)
unfolding stored
decode-bx_example =
    decode-bx machine others 0xe12fff1e (omega arith) refl (omega arith) (omega arith)

decode-mov_pc_example : decode machine others 0xe1a0f00e ≡ addr_lin
decode-mov_pc_example = decode-mov_pc machine others 0xe1a0f00e (omega arith) refl

decode-movs_pc_example : decode machine others 0xe1b0f00e ≡ (
    if bit (reg_spsr saved) 5 == 0
    then undef_addr
    else thumb_addr (operand saved (bitrng 0xe1b0f00e 3 0)))
unfolding stored
decode-movs_pc_example =
    decode-movs_pc machine others 0xe1b0f00e (omega arith) refl (omega arith) (omega arith)
      (omega arith)

-- `pop {r0, pc}`
decode-pop_example : decode machine others 0xe8bd8001 ≡ (
    if bit (reg_spsr saved) 5 == 0
    then arm_addr (bit_and (return_word machine 0xe8bd8001) 0xfffffffc)
    else thumb_addr (return_word machine 0xe8bd8001))
unfolding stored
decode-pop_example =
    decode-pop machine others 0xe8bd8001 (omega arith) refl (omega arith) (omega arith)

-- `ldr pc, [pc, #16]`
decode-ldr_literal_example :
    decode machine others 0xe59ff010 ≡ landing (literal_word machine 0xe59ff010)
unfolding literal_word store
decode-ldr_literal_example =
    decode-ldr_literal machine others 0xe59ff010 (omega arith) refl (omega arith)

-- -9 / 3
signed_quotient-div32_example : signed_quotient 0xfffffff7 3 ≡ div32 0xfffffff7 3
unfolding size
signed_quotient-div32_example =
    signed_quotient-div32 0xfffffff7 3 (omega arith) (omega arith) (omega arith)

abbrev sub_row : DecTblEntry
sub_row = entry 0x0040F000 0x0FE0F010 arm_ret_sub_r core_data_std_r

-- the row with a number
row_at : List DecTblEntry → ℕ → Option DecTblEntry
row_at [] i = none
row_at (e ∷ es) zero = some e
row_at (e ∷ es) (suc i) = row_at es i

row_at-member : (es : List DecTblEntry) (i : ℕ) (e : DecTblEntry) → row_at es i ≡ some e → Memᴰ e es
unfolding row_at
row_at-member [] i e h = absurd cc
row_at-member (x ∷ es) zero e h = Memᴰ.head (let q : e ≡ x = cc in q)
row_at-member (x ∷ es) (suc i) e h = Memᴰ.tail (row_at-member es i e h)

sub_member : Memᴰ sub_row decode_table
unfolding row_at decode_table
sub_member = row_at-member decode_table 278 sub_row refl

arm_core_data_std_r-alu_example :
    arm_core_data_std_r saved 0xe04ef001 arm_ret_sub_r
    ≡ leads saved 0xe04ef001 (
        alu 2 (first_operand saved 0xe04ef001) (second_operand saved 0xe04ef001) (carry_flag saved))
unfolding opcode_r ahead stored hit
arm_core_data_std_r-alu_example =
    arm_core_data_std_r-alu saved 0xe04ef001 sub_row sub_member (λ q. cc) refl refl (inr refl)
      (omega arith) (omega arith)

-- `ldmdb sp, {r0, pc}`
pc_slot-start_example :
    ((bitrng 0xe91d8001 24 23 ≡ 1) ⊎ (bitrng 0xe91d8001 24 23 ≡ 3)
      → pc_slot saved 0xe91d8001
        ≡ last
            (bitrng 0xe91d8001 24 23)
            (stored saved (bitrng 0xe91d8001 19 16))
            (ones 16 0xe91d8001))
    × ((bitrng 0xe91d8001 24 23 ≡ 0) ⊎ (bitrng 0xe91d8001 24 23 ≡ 2)
        → pc_slot saved 0xe91d8001
          ≡ start
              (bitrng 0xe91d8001 24 23)
              (stored saved (bitrng 0xe91d8001 19 16))
              (ones 16 0xe91d8001))
unfolding stored bitrng
pc_slot-start_example = pc_slot-start saved 0xe91d8001 refl (omega arith)
