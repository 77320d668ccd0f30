-- ===== src/Decode/Alu/Opcode.antt =====
-- The opcodes of the rows of the decoding table (ARM_decode_table_data.h) and of the instructions that
-- match them.
use rpi_stub.Common.{
  ℕ, ◌/◌, ◌%◌, ◌^◌, ◌≡◌, sym, ap, ◌∙◌, Bool, true, Option, none, some, ◌==◌, ◌&&◌, List, [], ◌∷◌,
  bit_and, bit_and_assoc, bit_and-field, subst, arith,
}
use mathlib.Core.List.{Memᴰ}
use mathlib.Core.List.Memᴰ
use rpi_stub.Decode.Extra.{Extra}
use rpi_stub.Decode.Row.{DecTblEntry, hit}
use rpi_stub.Decode.Table.{decode_table}

-- A row with an opcode has it in bits 24 to 21, and looks at these bits.
unfoldable pub has_opcode : Option ℕ → DecTblEntry → Bool
has_opcode none e = true
has_opcode (some k) e = (e.«data» / 2 ^ 21 % 2 ^ 4 == k) && (bit_and e.mask 0x1e00000 == 0x1e00000)

module _ (opcode : Extra → Option ℕ) where
  unfoldable pub all_opcodes : List DecTblEntry → Bool
  unfolding has_opcode
  all_opcodes [] = true
  all_opcodes (e ∷ es) = has_opcode (opcode e.extra) e && all_opcodes es

  member_opcode :
      (es : List DecTblEntry) (r : DecTblEntry)
      → all_opcodes es ≡ true
      → Memᴰ r es
      → has_opcode (opcode r.extra) r ≡ true
  unfolding all_opcodes
  member_opcode [] r h m = absurd (Memᴰ.not-nil m)
  member_opcode (e ∷ es) r h (Memᴰ.head q) =
      subst (λ x. has_opcode (opcode x.extra) x ≡ true) (sym q) (ground arith)
  member_opcode (e ∷ es) r h (Memᴰ.tail m) = member_opcode es r (ground arith) m

has_opcode-some :
    (k : ℕ) (e : DecTblEntry)
    → has_opcode (some k) e ≡ true
    → (e.«data» / 2 ^ 21 % 2 ^ 4 ≡ k) × (bit_and e.mask 0x1e00000 ≡ 0x1e00000)
unfolding has_opcode
has_opcode-some k e h = (ground arith, ground arith)

field_of :
    (instr : ℕ) (e : DecTblEntry)
    → hit instr e ≡ true
    → bit_and e.mask 0x1e00000 ≡ 0x1e00000
    → instr / 2 ^ 21 % 2 ^ 4 ≡ e.«data» / 2 ^ 21 % 2 ^ 4
unfolding hit
field_of instr e h m =
    let row : bit_and instr e.mask ≡ e.«data» = ground arith in
    let same : bit_and e.«data» 0x1e00000 ≡ bit_and instr 0x1e00000 =
      ap (λ d. bit_and d 0x1e00000) (sym row)
      ∙ bit_and_assoc instr e.mask 0x1e00000
      ∙ ap (bit_and instr) m in
    let left = bit_and-field 21 4 instr in let right = bit_and-field 21 4 e.«data» in omega arith

-- An instruction that matches a row of the table has the row's opcode.
pub instr_opcode :
    (opcode : Extra → Option ℕ) (e : DecTblEntry) (instr k : ℕ)
    → all_opcodes opcode decode_table ≡ true
    → Memᴰ e decode_table
    → hit instr e ≡ true
    → opcode e.extra ≡ some k
    → k ≡ instr / 2 ^ 21 % 2 ^ 4
instr_opcode opcode e instr k table m h here =
    let row = member_opcode opcode decode_table e table m in
    let (value, mask) = has_opcode-some k e (subst (λ o. has_opcode o e ≡ true) here row) in
    sym value ∙ sym (field_of instr e h mask)
