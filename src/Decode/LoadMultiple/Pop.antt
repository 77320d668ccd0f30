-- ===== src/Decode/LoadMultiple/Pop.antt =====
-- POP with the PC in its list: the table (ARM_decode_table_data.h) and `arm_core_ldstm`
-- (ARM_decode_table.c).
use rpi_stub.Common.{
  ℕ, ◌+◌, ◌-◌, ◌*◌, ◌/◌, ◌%◌, ◌^◌, ◌≤◌, ◌<◌, ◌≡◌, ◌≢◌, refl, ◌∙◌, sym, Bool, false, ◌==◌,
  if◌then◌else◌, bit_and, bit_and-mask, inl, some, arith, ltb,
}
use rpi_stub.Instr.Next.{NextAddr, arm_addr, thumb_addr}
use rpi_stub.Instr.Word.{bit, bitrng}
use rpi_stub.Instr.Condition.{field}
use rpi_stub.Stub.Memory.{Memory, load32}
use rpi_stub.Decode.Extra.{Extra, Decoder, core_ldstm, arm_cldstm_pop}
use rpi_stub.Decode.Row.{entry}
use rpi_stub.Decode.Search.{fits}
use rpi_stub.Decode.Context.{Context, stored, reg_spsr}
use rpi_stub.Decode.Specific.{ones}
use rpi_stub.Decode.Narrow.{candidate, dispatch-known, known-bitrng, known-bit}
use rpi_stub.Decode.Return.{jump}
use rpi_stub.Decode.LoadMultiple.{
  arm_core_ldstm, multiple, load_case, store_case, pop_pc, tested, by_spsr, unpred_if,
  register_count, pc_slot,
}
use rpi_stub.Decode.LoadMultiple.Slot.{register_count-ones, ones_top, pc_slot-start, last, start}
use rpi_stub.Decode.Decoder.{Machine, decode, decoders}

pop_left :
    candidate 0x0fff8000 0x08bd8000 ≡ some (entry 0x08BD0000 0x0FFF0000 arm_cldstm_pop core_ldstm)
unfolding candidate fits
pop_left = refl

jump-address : (a : ℕ) → (jump a).address ≡ a
unfolding jump
jump-address a = ground arith

otherwise : (b : Bool) (x y : NextAddr) → b ≡ false → (if b then x else y) ≡ y
otherwise b x y e = rw e refl

multiple_load :
    (c : Context) (m : Memory) (instr : ℕ)
    → bit instr 20 ≡ 1
    → bit instr 22 ≡ 0
    → multiple c m instr ≡ load_case c m instr
unfolding multiple
multiple_load c m instr load user =
    otherwise _ (store_case c instr) (load_case c m instr) (rw (load, user) refl)

-- LDM of the PC with the base 13, where none of the tests of the registers holds
load_plain :
    (c : Context) (m : Memory) (instr : ℕ)
    → bitrng instr 19 16 ≡ 13
    → bit instr 20 ≡ 1
    → bit instr 22 ≡ 0
    → bit instr 15 ≡ 1
    → 16 ≤ reg_spsr c
    → 1 ≤ register_count instr
    → load_case c m instr ≡ pop_pc c m instr
unfolding load_case tested unpred_if
load_plain c m instr base load user pc mode some_register =
    let sp : (reg_spsr c == 13) ≡ false = ground arith in
    let r15 : (reg_spsr c == 15) ≡ false = ground arith in
    let n : ltb (register_count instr) 1 ≡ false = ground arith in
    rw (base, load, user, pc, sp, r15, n) refl

popped :
    (c : Context) (m : Memory) (instr : ℕ)
    → bit instr 20 ≡ 1
    → pop_pc c m instr ≡ (
        if bit (reg_spsr c) 5 == 0
        then arm_addr (bit_and (load32 m (pc_slot c instr)) 0xfffffffc)
        else thumb_addr (load32 m (pc_slot c instr)))
unfolding pop_pc by_spsr
popped c m instr load = rw (load, jump-address (load32 m (pc_slot c instr))) refl

bit-digit : (x i : ℕ) → bit x i ≡ x / 2 ^ i % 2
unfolding bit
bit-digit x i = bit_and-mask 1 (x / 2 ^ i)

-- The PC's word on the stack, with `n` registers in the list.
unfoldable pub return_word : Machine → ℕ → ℕ
unfolding load32 stored ones
return_word k instr = load32 k.memory ((stored k.context 13 + 4 * (ones 16 instr - 1)) % 2 ^ 32)

-- POP with the PC in its list, under any condition but 15 and whatever the flags are, leads to the
-- last of the words on the stack: as a Thumb address where the saved status asks for Thumb code, and
-- else as an ARM address with its two lowest bits cleared. The saved status holds a mode of the
-- architecture, 16 or more.
pub decode-pop :
    (k : Machine) (rest : Decoder → ℕ → Extra → NextAddr) (instr : ℕ)
    → field instr ≢ 15
    → bit_and instr 0x0fff8000 ≡ 0x08bd8000
    → stored k.context 13 < 2 ^ 32
    → 16 ≤ reg_spsr k.context
    → decode k rest instr ≡ (
        if bit (reg_spsr k.context) 5 == 0
        then arm_addr (bit_and (return_word k instr) 0xfffffffc)
        else thumb_addr (return_word k instr))
unfolding decode decoders arm_core_ldstm return_word last start
decode-pop k rest instr c known small mode =
    let d =
      dispatch-known (decoders k rest) 0x0fff8000 0x08bd8000 instr _ pop_left c known refl refl in
    let base : bitrng instr 19 16 ≡ 13 = known-bitrng _ _ instr 19 16 13 known refl refl in
    let way : bitrng instr 24 23 ≡ 1 = known-bitrng _ _ instr 24 23 1 known refl refl in
    let load : bit instr 20 ≡ 1 = known-bit _ _ instr 20 1 known refl refl in
    let user : bit instr 22 ≡ 0 = known-bit _ _ instr 22 0 known refl refl in
    let pc : bit instr 15 ≡ 1 = known-bit _ _ instr 15 1 known refl refl in
    let pc' : instr / 2 ^ 15 % 2 ≡ 1 = sym (bit-digit instr 15) ∙ pc in
    let count = register_count-ones instr in
    let plain =
      load_plain k.context k.memory instr base load user pc mode
        (omega (arith, ones_top 15 instr)) in
    let small' : stored k.context (bitrng instr 19 16) < 2 ^ 32 = rw base small in
    let (slot, _) = pc_slot-start k.context instr pc' small' in
    let here : pc_slot k.context instr ≡ (stored k.context 13 + 4 * (ones 16 instr - 1)) % 2 ^ 32 =
      slot (inl way) ∙ rw (base, way) refl in
    d
    ∙ (multiple_load k.context k.memory instr load user
        ∙ plain
        ∙ popped k.context k.memory instr load
        ∙ rw here refl)
