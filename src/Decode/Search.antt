-- ===== src/Decode/Search.antt =====
-- `ARM_decoder_dispatch` (ARM_decode_table.c): the search in the table, for decoding functions that
-- are given by name.
use rpi_stub.Common.{
  ℕ, ◌≡◌, refl, ap, ◌∙◌, sym, Bool, true, Option, none, some, List, [], ◌∷◌, ◌==◌, if◌then◌else◌,
  bit_and, ==_iff, bit_and_swap, Bool-cases, inl, inr,
}
use rpi_stub.Decode.Extra.{Extra, Decoder}
use rpi_stub.Decode.Row.{DecTblEntry, hit}
use rpi_stub.Decode.Table.{decode_table}
use rpi_stub.Instr.Next.{NextAddr, undef_addr}

-- the loop over the rows
unfoldable pub search : ℕ → List DecTblEntry → Option DecTblEntry
search instr [] = none
search instr (e ∷ es) = if hit instr e then some e else search instr es

-- the call of the decoding function of the row that is found
unfoldable pub call : (Decoder → ℕ → Extra → NextAddr) → ℕ → Option DecTblEntry → NextAddr
call run instr none = undef_addr
call run instr (some e) = run e.decoder instr e.extra

-- `ARM_decoder_dispatch`
unfoldable pub dispatch : (Decoder → ℕ → Extra → NextAddr) → ℕ → NextAddr
unfolding call search
dispatch run instr = call run instr (search instr decode_table)

-- whether a row can be hit by an instruction whose bits under `known` are `value`
unfoldable pub fits : ℕ → ℕ → DecTblEntry → Bool
fits known value e = bit_and e.«data» known == bit_and value e.mask

unfoldable pub narrow : ℕ → ℕ → List DecTblEntry → List DecTblEntry
narrow known value [] = []
narrow known value (e ∷ es) =
    if fits known value e then e ∷ narrow known value es else narrow known value es

-- Masking both with the row's mask and with the known bits, in either order, is the same.
hit-fits :
    (known value instr : ℕ) (e : DecTblEntry)
    → bit_and instr known ≡ value
    → hit instr e ≡ true
    → fits known value e ≡ true
unfolding hit fits
hit-fits known value instr e k h =
    let (is, _) = ==_iff (bit_and instr e.mask) e.«data» in
    let same : bit_and e.«data» known ≡ bit_and value e.mask =
      ap (λ d. bit_and d known) (sym (is h))
      ∙ bit_and_swap instr e.mask known
      ∙ ap (λ v. bit_and v e.mask) k in
    let (_, back) = ==_iff (bit_and e.«data» known) (bit_and value e.mask) in back same

-- Rows that the known bits of an instruction exclude can be left out of the search.
pub search-narrow :
    (known value instr : ℕ) (es : List DecTblEntry)
    → bit_and instr known ≡ value
    → search instr es ≡ search instr (narrow known value es)
unfolding search narrow
search-narrow known value instr [] k = refl
search-narrow known value instr (e ∷ es) k =
    let rest = search-narrow known value instr es k in
    let fit = hit-fits known value instr e k in
    elim (Bool-cases (hit instr e)) [
      | inl h ↦ rw (fit h, h) refl
      | inr h ↦ elim (Bool-cases (fits known value e)) [
        | inl f ↦ rw (f, h) rest
        | inr f ↦ rw (f, h) rest
      ]
    ]
