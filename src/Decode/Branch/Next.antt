-- ===== src/Decode/Branch/Next.antt =====
-- The step over B and BL: `next_address` (instr.c) with the decoder (ARM_decode_table.c).
use rpi_stub.Common.{
  ℕ, ◌+◌, ◌/◌, ◌%◌, ◌^◌, ◌≡◌, ◌≢◌, refl, ap, ◌∙◌, false, ◌==◌, if◌then◌else◌, bit_and, bit_and-mask,
  arith, ◌⊎◌, inl, inr, Bool-cases,
}
use rpi_stub.Instr.Next.{NextAddr, arm_addr, linear, next_address, next_address_arm}
use rpi_stub.Instr.Condition.{will_branch, will_branch-holds, holds, field}
use rpi_stub.Stub.Memory.{Memory, load32}
use rpi_stub.Decode.Extra.{Extra, Decoder}
use rpi_stub.Decode.Int32.{add32}
use rpi_stub.Decode.Context.{Context, stored, reg_r15, reg_cpsr, registers, addr_lin}
use rpi_stub.Decode.Branch.{arm_branch, branch_to, to_label}
use rpi_stub.Decode.Branch.Target.{distance, sx32-distance, dispatch-branch}
use rpi_stub.Decode.Decoder.{Machine, decode, decoders}

-- the target of a branch
unfoldable pub target : Context → ℕ → ℕ
unfolding distance stored
target c instr = (reg_r15 c + 8 + distance instr) % 2 ^ 32

to_label-target : (c : Context) (instr : ℕ) → to_label c instr ≡ arm_addr (target c instr)
unfolding to_label add32 target
to_label-target c instr =
    let e : ((reg_r15 c + 8) % 2 ^ 32 + distance instr) % 2 ^ 32
        ≡ (reg_r15 c + 8 + distance instr) % 2 ^ 32 =
      omega arith in
    rw (sx32-distance instr) (ap arm_addr e)

decode-label :
    (k : Machine) (rest : Decoder → ℕ → Extra → NextAddr) (instr : ℕ)
    → field instr ≢ 15
    → (instr / 2 ^ 24 % 16 ≡ 10) ⊎ (instr / 2 ^ 24 % 16 ≡ 11)
    → decode k rest instr ≡ (
        if will_branch (reg_cpsr k.context) instr
        then arm_addr (target k.context instr)
        else addr_lin)
unfolding decode decoders arm_branch branch_to
decode-label k rest instr c kind =
    let (b, bl) = dispatch-branch (decoders k rest) instr c in
    let t = to_label-target k.context instr in
    elim kind [ inl h ↦ b h ∙ rw t refl | inr h ↦ bl h ∙ rw t refl ]

target_aligned : (c : Context) (instr : ℕ) → reg_r15 c % 4 ≡ 0 → (target c instr == linear) ≡ false
unfolding target distance
target_aligned c instr h = ground arith

-- In ARM state, at an aligned address, the step over B or BL, under any condition but 8 (HI), 9 (LS),
-- 13 (LE) and 15, leads to the stored PC plus 8 and the signed offset, modulo 2^32, where the
-- architecture's condition holds for the stored flags, and else to the stored PC plus 4.
pub next_address-branch :
    (k : Machine) (rest : Decoder → ℕ → Extra → NextAddr) (m : Memory) (address : ℕ)
    → bit_and (reg_cpsr k.context) (2 ^ 24) ≡ 0
    → bit_and (reg_cpsr k.context) (2 ^ 5) ≡ 0
    → address % 4 ≡ 0
    → reg_r15 k.context % 4 ≡ 0
    → (load32 m address / 2 ^ 24 % 16 ≡ 10) ⊎ (load32 m address / 2 ^ 24 % 16 ≡ 11)
    → field (load32 m address) ≢ 8
    → field (load32 m address) ≢ 9
    → field (load32 m address) ≢ 13
    → field (load32 m address) ≢ 15
    → next_address (decode k rest) (registers k.context) m address
      ≡ arm_addr (
          if holds (field (load32 m address)) (field (reg_cpsr k.context))
          then target k.context (load32 m address)
          else (reg_r15 k.context + 4) % 2 ^ 32)
unfolding next_address next_address_arm
next_address-branch k rest m address j t aligned r15_aligned kind hi ls le always =
    let low : bit_and address 3 ≡ 0 = bit_and-mask 2 address ∙ aligned in
    let d = decode-label k rest (load32 m address) always kind in
    let w = will_branch-holds (reg_cpsr k.context) (load32 m address) hi ls le in
    let far = target_aligned k.context (load32 m address) r15_aligned in
    elim (Bool-cases (holds (field (load32 m address)) (field (reg_cpsr k.context)))) [
      | inl h ↦ rw (j, t, low, d, w, h, far) refl
      | inr h ↦ rw (j, t, low, d, w, h) refl
    ]
