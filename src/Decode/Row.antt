-- ===== src/Decode/Row.antt =====
-- A row of the decoding table (ARM_decode_table.c), and whether an instruction matches it.
use rpi_stub.Common.{ℕ, Bool, ◌==◌, bit_and}
use rpi_stub.Decode.Extra.{Extra, Decoder}

-- `ARM_dec_tbl_entry_t`
pub record DecTblEntry : Type 0 where
  pub «data» : ℕ
  pub mask : ℕ
  pub extra : Extra
  pub decoder : Decoder

abbrev pub entry : ℕ → ℕ → Extra → Decoder → DecTblEntry
entry d m x f = record { «data» = d; mask = m; extra = x; decoder = f }

-- the test of a row by `ARM_decoder_dispatch`
unfoldable pub hit : ℕ → DecTblEntry → Bool
hit instr e = bit_and instr e.mask == e.«data»
