-- ===== src/Decode/Branch/Register.antt =====
-- Where BX, BLX and BXJ with a register lead: the table (ARM_decode_table_data.h) and `arm_branch`
-- (ARM_decode_table.c).
use rpi_stub.Common.{
  ℕ, ◌-◌, ◌*◌, ◌/◌, ◌%◌, ◌^◌, ◌<◌, ◌≡◌, ◌≢◌, refl, ◌∙◌, false, ◌==◌, if◌then◌else◌, bit_and,
  bit_and-mask, bit_and-field, some, arith,
}
use rpi_stub.Instr.Next.{NextAddr, arm_addr, thumb_addr, unpred_addr}
use rpi_stub.Instr.Word.{bit, bitrng}
use rpi_stub.Instr.Condition.{field, will_branch}
use rpi_stub.Decode.Extra.{Extra, Decoder, branch, arm_bra_bx_r}
use rpi_stub.Decode.Row.{entry}
use rpi_stub.Decode.Context.{stored, reg_cpsr, addr_lin}
use rpi_stub.Decode.Search.{fits}
use rpi_stub.Decode.Narrow.{candidate, dispatch-known}
use rpi_stub.Decode.Branch.{arm_branch, branch_to, to_register, by_address}
use rpi_stub.Decode.Decoder.{Machine, decode, decoders}

bx_left : candidate 0x0ffffff0 0x012fff10 ≡ some (entry 0x01200010 0x0FF000F0 arm_bra_bx_r branch)
unfolding candidate fits
bx_left = refl

bx_bits : (instr : ℕ) → instr / 2 ^ 4 % 2 ^ 24 ≡ 0x12fff1 → bit_and instr 0x0ffffff0 ≡ 0x012fff10
bx_bits instr h = let e = bit_and-field 4 24 instr in omega arith

-- where BX leads with an address
unfoldable pub exchange : ℕ → NextAddr
exchange a =
    if a % 2 == 1
    then thumb_addr (a - 1)
    else if a % 4 == 0
    then arm_addr a
    else unpred_addr addr_lin

by_address-exchange : (a : ℕ) → a < 2 ^ 32 → by_address a ≡ exchange a
unfolding by_address bit exchange
by_address-exchange a h =
    let whole : a / 2 ^ 0 ≡ a = omega arith in
    let thumb : bit_and a 0xfffffffe ≡ a / 2 * 2 = omega (arith, bit_and-field 1 31 a) in
    let arm : bit_and a 0xfffffffc ≡ a / 4 * 4 = omega (arith, bit_and-field 2 30 a) in
    rw (whole, bit_and-mask 1 a, bit_and-mask 1 (a / 2), thumb, arm) (ground arith)

-- BX with a register other than the PC, under any condition but 15: where `will_branch` answers yes,
-- an odd address leads to the Thumb instruction one below, an address that is a multiple of 4 to the
-- ARM instruction there, and any other is unpredictable; else the flow is linear.
pub decode-bx :
    (k : Machine) (rest : Decoder → ℕ → Extra → NextAddr) (instr : ℕ)
    → field instr ≢ 15
    → instr / 2 ^ 4 % 2 ^ 24 ≡ 0x12fff1
    → instr % 16 ≢ 15
    → stored k.context (instr % 16) < 2 ^ 32
    → decode k rest instr ≡ (
        if will_branch (reg_cpsr k.context) instr
        then exchange (stored k.context (instr % 16))
        else addr_lin)
unfolding decode decoders arm_branch branch_to to_register bitrng
decode-bx k rest instr c bits pc small =
    let d =
      dispatch-known (decoders k rest) 0x0ffffff0 0x012fff10 instr _ bx_left c (bx_bits instr bits)
        refl refl in
    let whole : instr / 2 ^ 0 ≡ instr = omega arith in
    let other : (instr % 16 == 15) ≡ false = ground arith in
    let e = by_address-exchange (stored k.context (instr % 16)) small in
    d ∙ rw (whole, bit_and-mask 4 instr, other, e) refl
