-- ===== src/Decode/Load.antt =====
-- `arm_core_ldst` (ARM_decode_table.c): LDR and STR of words and bytes.
pub mod Literal
use rpi_stub.Common.{ℕ, Bool, false, ◌==◌, ◌&&◌, ◌||◌, not, if◌then◌else◌}
use rpi_stub.Instr.Next.{NextAddr, unpred_addr, arm_addr, linear}
use rpi_stub.Instr.Word.{bit, bitrng, bits}
use rpi_stub.Stub.Memory.{Memory, load32}
use rpi_stub.Decode.Extra.{Extra}
use rpi_stub.Decode.Context.{Context, stored, carry, addr_lin}
use rpi_stub.Decode.Int32.{add32, sub32}
use rpi_stub.Decode.Shift.{shift_imm}
use rpi_stub.Decode.Return.{jump}

abbrev pub set : ℕ → Bool
set b = not (b == 0)

-- the offset
unfoldable pub ldst_offset : Context → ℕ → ℕ
unfolding bit bitrng stored carry shift_imm
ldst_offset c instr =
    if set (bit instr 25)
    then shift_imm (carry c) (stored c (bitrng instr 3 0)) (bitrng instr 6 5) (bitrng instr 11 7)
    else bitrng instr 11 0

-- `+=` or `-=`, by the U-bit
unfoldable pub moved : ℕ → ℕ → ℕ → ℕ
unfolding bit add32 sub32
moved instr base offset = if set (bit instr 23) then add32 base offset else sub32 base offset

-- a byte or a word, by the B-bit
unfoldable pub fetch : Memory → ℕ → ℕ → ℕ
unfolding bit load32
fetch m instr a = if set (bit instr 22) then m a else load32 m a

-- the `switch` over the P- and the W-bit
unfoldable pub postindexed : Context → Memory → ℕ → ℕ → NextAddr
unfolding bit bitrng stored moved fetch
postindexed c m instr offset =
    let rn = bitrng instr 19 16 in
    if rn == 15
    then arm_addr (moved instr (stored c rn) offset)
    else if set (bit instr 20)
    then arm_addr (fetch m instr (stored c rn))
    else arm_addr (stored c (bitrng instr 15 12))

unfoldable pub at_offset : Context → Memory → ℕ → ℕ → NextAddr
unfolding bit bitrng stored moved fetch
at_offset c m instr offset =
    let rt = bitrng instr 15 12 in
    if rt == 15
    then if set (bit instr 20)
      then arm_addr (fetch m instr (moved instr (stored c (bitrng instr 19 16)) offset))
      else arm_addr (stored c rt)
    else addr_lin

unfoldable pub preindexed : Context → Memory → ℕ → ℕ → NextAddr
unfolding bit bitrng stored moved fetch
preindexed c m instr offset =
    let rt = bitrng instr 15 12 in
    let address = moved instr (stored c (bitrng instr 19 16)) offset in
    let start = if address == 15 then address else stored c rt in
    let tmp4 = if (rt == 15) && set (bit instr 20) then fetch m instr address else start in
    if tmp4 == stored c rt then addr_lin else arm_addr tmp4

unfoldable pub by_index : Context → Memory → ℕ → NextAddr
unfolding bits ldst_offset postindexed at_offset preindexed
by_index c m instr =
    let way = bits instr 0x01200000 in
    let offset = ldst_offset c instr in
    if way == 0
    then postindexed c m instr offset
    else if way == 3
    then preindexed c m instr offset
    else at_offset c m instr offset

-- `unp`, before the switch
unfoldable pub ldst_unp : ℕ → Bool
unfolding bit bitrng
ldst_unp instr =
    let rn = bitrng instr 19 16 in
    let rt = bitrng instr 15 12 in
    let wback = set (bit instr 21) in
    let by_register =
      if ((rn == 15) || (rt == 15)) && set (bit instr 25)
      then wback && (rt == 15) || (bitrng instr 3 0 == 15)
      else false in
    wback && (rn == rt) || by_register

-- `arm_core_ldst`
unfoldable pub arm_core_ldst : Context → Memory → ℕ → Extra → NextAddr
unfolding bitrng by_index jump ldst_unp
arm_core_ldst c m instr extra =
    let retval =
      if (bitrng instr 19 16 == 15) || (bitrng instr 15 12 == 15)
      then by_index c m instr
      else addr_lin in
    let placed = if retval.address == linear then retval else jump retval.address in
    if ldst_unp instr then unpred_addr placed else placed
