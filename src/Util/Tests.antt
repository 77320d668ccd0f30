-- ===== src/Util/Tests.antt =====
-- Runs of the functions of util.c, and their theorems at concrete inputs.
use rpi_stub.Common.{◌≡◌, refl, false, some, [], ◌∷◌, ◌++◌, codes, arith}
use rpi_stub.Common.Int.{pos, neg}
use rpi_stub.Util.Hex.{hex_to_nib, nib_to_hex, byte_to_hex, hex_to_word, word_to_hex}
use rpi_stub.Util.Decimal.{word_to_dec, undefined, read, int_max, read_dec}
use rpi_stub.Util.Decimal.Digits.{chars}
use rpi_stub.Util.Decimal.Range.{read_dec_overflow}

hex_runs : (hex_to_word (codes "1aF,4") ≡ 0x1af) × (word_to_hex 0xbeef ≡ codes "0000beef" ++ 0 ∷ [])
unfolding hex_to_word word_to_hex hex_to_nib byte_to_hex nib_to_hex
hex_runs = (refl, refl)

decimal_runs :
    (word_to_dec 4090 ≡ some (codes "4090" ++ 0 ∷ []))
    × (read_dec int_max (codes "-17 x") ≡ read (neg 17) 3)
    × (read_dec int_max (codes "-") ≡ read (pos 0) 0)
unfolding word_to_dec read_dec
decimal_runs = (refl, refl, refl)

read_dec_overflow_example :
    read_dec int_max ([] ++ (chars (2 ∷ 1 ∷ 4 ∷ 7 ∷ 4 ∷ 8 ∷ 3 ∷ 6 ∷ 4 ∷ 8 ∷ []) ++ [])) ≡ undefined
read_dec_overflow_example =
    read_dec_overflow false 2 (1 ∷ 4 ∷ 7 ∷ 4 ∷ 8 ∷ 3 ∷ 6 ∷ 4 ∷ 8 ∷ []) [] (omega arith)
      (omega arith)
