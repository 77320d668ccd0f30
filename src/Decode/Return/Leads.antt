-- ===== src/Decode/Return/Leads.antt =====
-- Where a value leads that is put into the PC, by the architecture's rules and the stub's marks, against
-- the jump and the returns of ARM_decode_table.c.
use rpi_stub.Common.{ℕ, ◌/◌, ◌%◌, ◌^◌, ◌≡◌, refl, ◌==◌, ◌||◌, if◌then◌else◌, bit_and-mask, arith}
use rpi_stub.Instr.Next.{NextAddr, undef_addr, unpred_addr, arm_addr, thumb_addr}
use rpi_stub.Instr.Word.{bit}
use rpi_stub.Decode.Context.{Context, stored, reg_spsr}
use rpi_stub.Decode.Return.{jump, by_mode, returned}

-- by the lowest bits: a multiple of 4 is ARM code, an odd address is Thumb code, and any other is
-- unpredictable
unfoldable pub landing : ℕ → NextAddr
landing a =
    if a % 4 == 0
    then arm_addr a
    else if a % 2 == 1
    then thumb_addr a
    else unpred_addr (thumb_addr a)

pub jump-landing : (a : ℕ) → jump a ≡ landing a
unfolding jump landing
jump-landing a = rw (bit_and-mask 1 a, bit_and-mask 2 a) (ground arith)

-- the result of an operation: without the S bit by its lowest bits; with it as the return from an
-- exception, which the modes USR and SYS do not have, and HYP not this way, to the code that the saved
-- status asks for
unfoldable pub leads : Context → ℕ → ℕ → NextAddr
leads c instr a =
    let mode = stored c 16 % 32 in
    if instr / 2 ^ 20 % 2 == 0
    then landing a
    else if (mode == 16) || (mode == 31)
    then unpred_addr (arm_addr 8)
    else if mode == 26
    then undef_addr
    else if stored c 17 / 2 ^ 5 % 2 == 0
    then arm_addr a
    else thumb_addr a

bit-digit : (x i : ℕ) → bit x i ≡ x / 2 ^ i % 2
unfolding bit
bit-digit x i = bit_and-mask 1 (x / 2 ^ i)

pub returned-leads : (c : Context) (instr a : ℕ) → returned c instr (arm_addr a) ≡ leads c instr a
unfolding returned leads by_mode
returned-leads c instr a =
    rw (bit-digit instr 20, bit-digit (reg_spsr c) 5, bit_and-mask 5 (stored c 16), jump-landing a)
      refl
