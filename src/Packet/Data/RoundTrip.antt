-- ===== src/Packet/Data/RoundTrip.antt =====
-- Memory that is written in a data format is read back from it.
use rpi_stub.Common.{
  ℕ, suc, ◌+◌, ◌*◌, ◌/◌, ◌%◌, ◌≤◌, ◌<◌, ◌≡◌, refl, ap, ◌∙◌, [], ◌∷◌, ◌++◌, Bytes, All, IsByte, take,
  drop, length, arith, append_assoc,
}
use rpi_stub.Util.Hex.{byte_to_hex, then_at_2}
use rpi_stub.Util.Hex.RoundTrip.{byte_to_hex_lem, hex_to_byte-byte_to_hex, digit}
use rpi_stub.Util.Escape.{byte_to_bin, bin_to_byte-byte_to_bin, IsPlain, byte_to_bin-IsPlain}
use rpi_stub.Packet.Data.{
  write_hex_loop, write_hex_data, write_bin_loop, write_bin_data, read_hex_loop, read_hex_data,
  read_bin_loop, read_bin_data,
}

-- all bytes in hex, and all bytes escaped
pub hex : Bytes → Bytes
hex [] = []
hex (b ∷ bs) = then_at_2 (byte_to_hex b) (hex bs)

pub escaped : Bytes → Bytes
escaped [] = []
escaped (b ∷ bs) = byte_to_bin b ++ escaped bs

pub write_hex_loop-hex :
    (bs : Bytes) (max j : ℕ)
    → j + 2 * length bs ≤ max
    → write_hex_loop bs (length bs) max j ≡ (hex bs ++ 0 ∷ [], j + 2 * length bs)
unfolding write_hex_loop hex
write_hex_loop-hex [] max j h = ground arith
write_hex_loop-hex (b ∷ bs) max j h = ground (
  arith,
  write_hex_loop-hex bs max (j + 2),
  append_assoc (take 2 (byte_to_hex b)) (hex bs) (0 ∷ []),
)

drop-hex : (b : ℕ) (rest : Bytes) → drop 2 (then_at_2 (byte_to_hex b) rest) ≡ rest
drop-hex b rest = rw (byte_to_hex_lem b)

pub read_hex_loop-hex :
    (bs rest : Bytes) (max i : ℕ)
    → All IsByte bs
    → i + length bs ≤ max
    → read_hex_loop (hex bs ++ rest) (length bs) max i ≡ (bs, i + length bs)
unfolding read_hex_loop hex
read_hex_loop-hex [] rest max i hb h = ground arith
read_hex_loop-hex (b ∷ bs) rest max i hb h =
    rw
      (
        append_assoc (take 2 (byte_to_hex b)) (hex bs) rest,
        hex_to_byte-byte_to_hex b (hex bs ++ rest) hb.0,
        drop-hex b (hex bs ++ rest),
      )
      (ground (arith, read_hex_loop-hex bs rest max (i + 1) hb.1))

double_suc : (n : ℕ) → 2 * suc n ≡ suc (suc (2 * n))
double_suc n = omega arith

pub take-hex : (bs rest : Bytes) → take (2 * length bs) (hex bs ++ rest) ≡ hex bs
unfolding hex
take-hex [] rest = refl
take-hex (b ∷ bs) rest =
    ap (λ n. take n (hex (b ∷ bs) ++ rest)) (double_suc (length bs))
    ∙ rw (byte_to_hex_lem b)
        (ap (λ xs. digit (b / 16 % 16) ∷ digit (b % 16) ∷ xs) (take-hex bs rest))

length-byte_to_bin : (b : ℕ) → (1 ≤ length (byte_to_bin b)) × (length (byte_to_bin b) ≤ 2)
unfolding byte_to_bin
length-byte_to_bin b = ground arith

All-append :
    (Holds : ℕ → Type 0) (front back : Bytes)
    → All Holds front
    → All Holds back
    → All Holds (front ++ back)
All-append Holds [] back h k = k
All-append Holds (b ∷ front) back h k = (h.0, All-append Holds front back h.1 k)

escaped-IsPlain : (bs : Bytes) → All IsPlain (escaped bs)
unfolding escaped
escaped-IsPlain [] = tt
escaped-IsPlain (b ∷ bs) =
    All-append IsPlain (byte_to_bin b) (escaped bs) (byte_to_bin-IsPlain b) (escaped-IsPlain bs)

pub write_bin_loop-escaped :
    (bs : Bytes) (max i j : ℕ)
    → j + 2 * length bs ≤ max
    → write_bin_loop bs (length bs) max i j ≡ (escaped bs, i + length bs)
unfolding write_bin_loop escaped
write_bin_loop-escaped [] max i j h = ground arith
write_bin_loop-escaped (b ∷ bs) max i j h = ground (
  arith,
  length-byte_to_bin b,
  write_bin_loop-escaped bs max (i + 1) (j + length (byte_to_bin b)),
)

drop-length : (xs rest : Bytes) → drop (length xs) (xs ++ rest) ≡ rest
drop-length [] rest = refl
drop-length (x ∷ xs) rest = drop-length xs rest

pub read_bin_loop-escaped :
    (bs rest : Bytes) (max i : ℕ)
    → All IsByte bs
    → i + length bs < max
    → read_bin_loop (escaped bs ++ rest) (length bs) max i ≡ (bs, i + length bs)
unfolding read_bin_loop escaped
read_bin_loop-escaped [] rest max i hb h = ground arith
read_bin_loop-escaped (b ∷ bs) rest max i hb h =
    rw
      (
        append_assoc (byte_to_bin b) (escaped bs) rest,
        bin_to_byte-byte_to_bin b (escaped bs ++ rest) hb.0,
        drop-length (byte_to_bin b) (escaped bs ++ rest),
      )
      (ground (arith, read_bin_loop-escaped bs rest max (i + 1) hb.1))

-- Bytes that `gdb_write_hex_data` writes, with a buffer of two digits for each, come back from
-- `gdb_read_hex_data`, all of them and nothing else, whatever follows in the buffer.
pub read_hex_data-write_hex_data :
    (bs rest : Bytes) (out_max in_max : ℕ)
    → All IsByte bs
    → 2 * length bs ≤ out_max
    → length bs ≤ in_max
    → let (text, n) = write_hex_data bs (length bs) out_max in
      (n ≡ 2 * length bs) × (read_hex_data (text ++ rest) (length bs) in_max ≡ (bs, length bs))
unfolding write_hex_data read_hex_data
read_hex_data-write_hex_data bs rest out_max in_max hb ho hi =
    rw
      (
        write_hex_loop-hex bs out_max 0 (omega arith),
        append_assoc (hex bs) (0 ∷ []) rest,
        read_hex_loop-hex bs (0 ∷ rest) in_max 0 hb (omega arith),
      )
      (omega arith, ground arith)

-- Bytes that `gdb_write_bin_data` writes, with a buffer of two bytes for each, come back from
-- `gdb_read_bin_data`, with a limit above their number, and what is written holds no `#`, `$` or
-- `*`.
pub read_bin_data-write_bin_data :
    (bs rest : Bytes) (out_max in_max : ℕ)
    → All IsByte bs
    → 2 * length bs ≤ out_max
    → length bs < in_max
    → let (text, n) = write_bin_data bs (length bs) out_max in
      (read_bin_data (text ++ rest) (length bs) in_max ≡ (bs, length bs)) × All IsPlain text
unfolding write_bin_data read_bin_data
read_bin_data-write_bin_data bs rest out_max in_max hb ho hi =
    rw
      (
        write_bin_loop-escaped bs out_max 0 0 (omega arith),
        read_bin_loop-escaped bs rest in_max 0 hb (omega arith),
      )
      (ground arith, escaped-IsPlain bs)
