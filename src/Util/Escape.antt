-- ===== src/Util/Escape.antt =====
-- Escaped binary bytes (util.c): `util_bin_to_byte` and `util_byte_to_bin`.
use rpi_stub.Common.{
  ℕ, ◌≡◌, ◌≢◌, ◌<◌, refl, ◌||◌, [], ◌∷◌, ◌++◌, Bytes, All, drop, ◌==◌, if◌then◌else◌, bit_xor,
  arith, ==_iff, all_below, all_below_sound, true, Bool, length,
}
use rpi_stub.Util.Hex.{peek}

-- `util_bin_to_byte`: the byte that is written and the result, the bytes that are read
unfoldable pub bin_to_byte : Bytes → ℕ × ℕ
bin_to_byte src = if peek src == 0x7d then (bit_xor (peek (drop 1 src)) 0x20, 2) else (peek src, 1)

-- the bytes that have a `case` of their own: `}`, `#`, `$` and `*`
abbrev pub is_special : ℕ → Bool
is_special b = b == 0x7d || b == 0x23 || b == 0x24 || b == 0x2a

-- `util_byte_to_bin`: the bytes that are written; the result is their number
unfoldable pub byte_to_bin : ℕ → Bytes
byte_to_bin b = if is_special b then 0x7d ∷ bit_xor b 0x20 ∷ [] else b ∷ []

toggle_table : all_below 256 (λ b. bit_xor (bit_xor b 0x20) 0x20 == b) ≡ true
unfolding all_below
toggle_table = refl

toggle_twice : (b : ℕ) → b < 256 → bit_xor (bit_xor b 0x20) 0x20 ≡ b
toggle_twice b h = (==_iff _ b).0 (all_below_sound 256 _ b toggle_table h)

-- An escaped byte is read back, and exactly its own bytes are read.
pub bin_to_byte-byte_to_bin :
    (b : ℕ) (rest : Bytes)
    → b < 256
    → bin_to_byte (byte_to_bin b ++ rest) ≡ (b, length (byte_to_bin b))
unfolding bin_to_byte byte_to_bin
bin_to_byte-byte_to_bin b rest h = ground (arith, toggle_twice b h)

-- The bytes that would break a packet.
abbrev pub IsPlain : ℕ → Type 0
IsPlain c = (c ≢ b'#') × (c ≢ b'$') × (c ≢ b'*')

xor_at : (b k v : ℕ) → bit_xor k 0x20 ≡ v → b ≡ k → bit_xor b 0x20 ≡ v
xor_at b k v e h = rw (h, e)

-- What is written of a byte holds none of the bytes that the protocol reserves.
pub byte_to_bin-IsPlain : (b : ℕ) → All IsPlain (byte_to_bin b)
unfolding byte_to_bin
byte_to_bin-IsPlain b = ground (
  arith,
  xor_at b 0x7d 0x5d refl,
  xor_at b 0x23 0x03 refl,
  xor_at b 0x24 0x04 refl,
  xor_at b 0x2a 0x0a refl,
)
