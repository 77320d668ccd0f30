-- ===== src/Packet/Data/Count.antt =====
-- The length that `gdb_write_bin_data` returns, against the length that it writes.
use rpi_stub.Common.{
  ℕ, ◌+◌, ◌*◌, ◌≤◌, ◌≡◌, [], ◌∷◌, Bytes, length, arith, ap, sym, ◌∙◌, if◌then◌else◌,
}
use rpi_stub.Util.Escape.{byte_to_bin, is_special}
use rpi_stub.Packet.Data.RoundTrip.{escaped, write_bin_loop-escaped}
use rpi_stub.Packet.Data.{write_bin_loop, write_bin_data}

-- how many bytes are escaped
pub specials : Bytes → ℕ
specials [] = 0
specials (b ∷ bs) = (if is_special b then 1 else 0) + specials bs

write_bin_loop-count :
    (bs : Bytes) (max i j : ℕ)
    → j + 2 * length bs ≤ max
    → let (text, n) = write_bin_loop bs (length bs) max i j in
      (n ≡ i + length bs) × (length text ≡ length bs + specials bs)
unfolding write_bin_loop specials byte_to_bin
write_bin_loop-count [] max i j h = ground arith
write_bin_loop-count (b ∷ bs) max i j h =
    ground (arith, write_bin_loop-count bs max (i + 1) (j + length (byte_to_bin b)))

-- With a buffer of two bytes for each, `gdb_write_bin_data` returns the number of bytes that it
-- read, which is short of the number that it wrote by the number of bytes that it escaped.
pub write_bin_data-count :
    (bs : Bytes) (max : ℕ)
    → 2 * length bs ≤ max
    → let (text, n) = write_bin_data bs (length bs) max in
      (n ≡ length bs) × (length text ≡ n + specials bs)
unfolding write_bin_data
write_bin_data-count bs max h = ground (arith, write_bin_loop-count bs max 0 0)

pub length-escaped : (bs : Bytes) → length (escaped bs) ≡ length bs + specials bs
unfolding specials byte_to_bin
length-escaped bs =
    sym (ap (λ r. length r.0) (write_bin_loop-escaped bs (2 * length bs) 0 0 (omega arith)))
    ∙ (write_bin_loop-count bs (2 * length bs) 0 0 (omega arith)).1
