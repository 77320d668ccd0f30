-- ===== src/Instr/Next.antt =====
-- `next_address` (instr.c): the address behind an instruction. The decoder of ARM instructions
-- (`ARM_decoder_dispatch`) is a parameter.
use rpi_stub.Common.{
  ℕ, ◌+◌, ◌%◌, ◌^◌, ◌≡◌, ◌≢◌, ◌∙◌, ◌==◌, ◌&&◌, not, if◌then◌else◌, bit_and, bit_or, bit_and-mask,
  ◌⊎◌, inl, inr, arith,
}
use rpi_stub.Stub.Memory.{Memory, load32}

-- `instr_next_addr_t`
pub record NextAddr : Type 0 where
  pub address : ℕ
  pub flag : ℕ

-- `INSTR_ADDR_UNDEF`, `INSTR_ADDR_UNPRED`, `INSTR_ADDR_ARM` and `INSTR_ADDR_THUMB`
abbrev pub addr_undef : ℕ
addr_undef = 0

abbrev pub addr_unpred : ℕ
addr_unpred = 2 ^ 4

abbrev pub addr_arm : ℕ
addr_arm = 2

abbrev pub addr_thumb : ℕ
addr_thumb = 3

-- the address of an instruction that goes on to the next
abbrev pub linear : ℕ
linear = 0xffffffff

-- `set_undef_addr`
abbrev pub undef_addr : NextAddr
undef_addr = record { address = 0; flag = addr_undef }

-- `set_unpred_addr`
abbrev pub unpred_addr : NextAddr → NextAddr
unpred_addr a = record a { flag = bit_or a.flag addr_unpred }

-- `set_arm_addr` and `set_thumb_addr`
abbrev pub arm_addr : ℕ → NextAddr
arm_addr a = record { address = a; flag = addr_arm }

abbrev pub thumb_addr : ℕ → NextAddr
thumb_addr a = record { address = a; flag = addr_thumb }

-- the registers that the step looks at: `r15` and `cpsr` of `rpi2_reg_context`
pub record Registers : Type 0 where
  pub r15 : ℕ
  pub cpsr : ℕ

module _ (decode : ℕ → NextAddr) where
  -- `next_address_thumb`
  unfoldable pub next_address_thumb : ℕ → NextAddr
  next_address_thumb address = undef_addr

  -- `next_address_arm`
  unfoldable pub next_address_arm : Registers → Memory → ℕ → NextAddr
  next_address_arm r m address =
      let a = decode (load32 m address) in
      if not (bit_and a.flag addr_arm == 0) && (a.address == linear)
      then record a { address = (r.r15 + 4) % 2 ^ 32 }
      else if not (bit_and a.flag addr_thumb == 0) && (a.address == linear)
      then record a { address = (r.r15 + 2) % 2 ^ 32 }
      else a

  -- `next_address`
  unfoldable pub next_address : Registers → Memory → ℕ → NextAddr
  unfolding next_address_thumb next_address_arm
  next_address r m address =
      if bit_and r.cpsr (2 ^ 24) == 0
      then if not (bit_and r.cpsr (2 ^ 5) == 0)
        then if bit_and address 1 == 0 then next_address_thumb address else undef_addr
        else if bit_and address 3 == 0
        then next_address_arm r m address
        else undef_addr
      else undef_addr

  -- In ARM state at an aligned address, an instruction that the decoder lets go on to the next leads
  -- to the stored PC plus 4, even one that it says is a Thumb instruction: the flag of ARM is a bit
  -- of the flag of Thumb.
  pub next_address-linear :
      (r : Registers) (m : Memory) (address : ℕ)
      → bit_and r.cpsr (2 ^ 24) ≡ 0
      → bit_and r.cpsr (2 ^ 5) ≡ 0
      → address % 4 ≡ 0
      → (decode (load32 m address) ≡ arm_addr linear)
        ⊎ (decode (load32 m address) ≡ thumb_addr linear)
      → (next_address r m address).address ≡ (r.r15 + 4) % 2 ^ 32
  unfolding next_address next_address_arm
  next_address-linear r m address j t aligned d =
      let low : bit_and address 3 ≡ 0 = bit_and-mask 2 address ∙ aligned in
      elim d [ inl e ↦ rw (j, t, low, e) | inr e ↦ rw (j, t, low, e) ]

  -- In Jazelle state, in Thumb state and at an address that is not aligned, the result is the
  -- undefined address, whatever the decoder says.
  pub next_address_undefined :
      (r : Registers) (m : Memory) (address : ℕ)
      → (bit_and r.cpsr (2 ^ 24) ≢ 0) ⊎ (bit_and r.cpsr (2 ^ 5) ≢ 0) ⊎ (address % 4 ≢ 0)
      → next_address r m address ≡ undef_addr
  unfolding next_address next_address_thumb
  next_address_undefined r m address why = let low = bit_and-mask 2 address in ground arith
