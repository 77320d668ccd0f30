-- ===== src/Command/Memory/RoundTrip.antt =====
-- The commands M and m (gdb.c), one behind the other.
use rpi_stub.Common.{
  ℕ, ◌+◌, ◌-◌, ◌*◌, ◌≤◌, ◌<◌, ◌≡◌, refl, ap, ◌∙◌, some, [], ◌∷◌, ◌++◌, Bytes, All, IsByte, length,
  false, arith,
}
use rpi_stub.Util.Hex.{hex_to_word}
use rpi_stub.Packet.Data.RoundTrip.{hex, write_hex_loop-hex, read_hex_loop-hex, take-hex}
use rpi_stub.Packet.Frame.{max_msg_len}
use rpi_stub.Stub.Memory.{Memory, store, byte_of, within}
use rpi_stub.Command.Argument.Text.{IsArgument, argument-text, zero_add}
use rpi_stub.Command.Argument.{int_rounds}
use rpi_stub.Command.Memory.{
  bytes_at, put_bytes, ok_text, read_mem_hex, write_mem_hex, write_hex_at, write_hex_behind,
  read_hex_at,
}

pub put_bytes-outside :
    (bs : Bytes) (m : Memory) (a q : ℕ) → within a (length bs) q ≡ false → put_bytes m a bs q ≡ m q
unfolding put_bytes store
put_bytes-outside [] m a q h = refl
put_bytes-outside (b ∷ bs) m a q h =
    put_bytes-outside bs (store 1 m a b) (a + 1) q (ground arith) ∙ ground arith

minus_self : (a : ℕ) → a - a ≡ 0
minus_self a = omega arith

store-byte : (m : Memory) (a b : ℕ) → b < 256 → store 1 m a b a ≡ b
unfolding store byte_of
store-byte m a b h = ground (arith, minus_self a)

pub bytes_at-put_bytes :
    (bs : Bytes) (m : Memory) (a : ℕ)
    → All IsByte bs
    → bytes_at (put_bytes m a bs) a (length bs) ≡ bs
unfolding bytes_at put_bytes store byte_of
bytes_at-put_bytes [] m a h = refl
bytes_at-put_bytes (b ∷ bs) m a h =
    ap (◌∷ (bytes_at (put_bytes m a (b ∷ bs)) (a + 1) (length bs)))
      (put_bytes-outside bs (store 1 m a b) (a + 1) a (ground arith) ∙ store-byte m a b h.0)
    ∙ ap (b ∷◌) (bytes_at-put_bytes bs (store 1 m a b) (a + 1) h.1)

pub int_rounds-small : (n : ℕ) → 2 * n ≤ 1019 → int_rounds n ≡ n
unfolding int_rounds
int_rounds-small n h = ground arith

write_hex_behind-hex :
    (m : Memory) (addr : ℕ) (bs more : Bytes) (packet_len : ℕ)
    → All IsByte bs
    → 2 * length bs ≤ 1019
    → 0 < packet_len
    → write_hex_behind m addr (length bs, hex bs ++ more) packet_len
      ≡ (put_bytes m addr bs, some ok_text)
unfolding write_hex_behind
write_hex_behind-hex m addr bs more packet_len hb hn hp =
    ground (arith, read_hex_loop-hex bs more max_msg_len 0 hb (omega arith))

read_hex_at-hex :
    (m : Memory) (addr : ℕ) (count bs : Bytes) (packet_len : ℕ)
    → bytes_at m addr (length bs) ≡ bs
    → hex_to_word count ≡ length bs
    → 2 * length bs ≤ 1019
    → 0 < packet_len
    → read_hex_at m (addr, count) packet_len ≡ some (hex bs)
unfolding read_hex_at
read_hex_at-hex m addr count bs packet_len hm e hn hp =
    rw
      (
        e,
        int_rounds-small (length bs) hn,
        hm,
        write_hex_loop-hex bs (max_msg_len - 5) 0 (omega arith),
      )
      (rw (zero_add (2 * length bs), take-hex bs (0 ∷ [])) (ground arith))

write_mem_hex-text :
    (m : Memory) (address count bs more : Bytes) (packet_len : ℕ)
    → All (IsArgument b',') address
    → length address + 1 < 16
    → All (IsArgument b':') count
    → length count + 1 < 16
    → All IsByte bs
    → hex_to_word count ≡ length bs
    → 2 * length bs ≤ 1019
    → 0 < packet_len
    → write_mem_hex m (address ++ b',' ∷ (count ++ b':' ∷ (hex bs ++ more))) packet_len
      ≡ (put_bytes m (hex_to_word address) bs, some ok_text)
unfolding write_mem_hex write_hex_at
write_mem_hex-text m address count bs more packet_len ha la hc lc hb e hn hp =
    ap (λ r. write_hex_at m r packet_len)
      (argument-text b',' address (count ++ b':' ∷ (hex bs ++ more)) ha la)
    ∙ ap (λ r. write_hex_behind m (hex_to_word address) r packet_len)
        (argument-text b':' count (hex bs ++ more) hc lc ∙ ap (λ n. (n, hex bs ++ more)) e)
    ∙ write_hex_behind-hex m (hex_to_word address) bs more packet_len hb hn hp

read_mem_hex-text :
    (m : Memory) (address count bs : Bytes) (packet_len : ℕ)
    → All (IsArgument b',') address
    → length address + 1 < 16
    → bytes_at m (hex_to_word address) (length bs) ≡ bs
    → hex_to_word count ≡ length bs
    → 2 * length bs ≤ 1019
    → 0 < packet_len
    → read_mem_hex m (address ++ b',' ∷ count) packet_len ≡ some (hex bs)
unfolding read_mem_hex
read_mem_hex-text m address count bs packet_len ha la hm e hn hp =
    ap (λ r. read_hex_at m r packet_len) (argument-text b',' address count ha la)
    ∙ read_hex_at-hex m (hex_to_word address) count bs packet_len hm e hn hp

-- What the command M writes, the command m reads: with an address and a count in front of their
-- delimiters, each of fewer than fifteen characters, the hex digits of as many bytes as the count
-- says, at most 509, whatever follows them, and packets that are not empty, M answers `OK`, the
-- bytes stand at the address, every byte of memory outside them is as it was, and m with that
-- address and that count answers the same digits.
pub read_mem_hex-write_mem_hex :
    (m : Memory) (address count bs more : Bytes) (write_len read_len q : ℕ)
    → All (IsArgument b',') address
    → length address + 1 < 16
    → All (IsArgument b':') count
    → length count + 1 < 16
    → All IsByte bs
    → hex_to_word count ≡ length bs
    → 2 * length bs ≤ 1019
    → 0 < write_len
    → 0 < read_len
    → within (hex_to_word address) (length bs) q ≡ false
    → let (after, answer) =
        write_mem_hex m (address ++ b',' ∷ (count ++ b':' ∷ (hex bs ++ more))) write_len in
      (answer ≡ some ok_text)
      × (bytes_at after (hex_to_word address) (length bs) ≡ bs)
      × (after q ≡ m q)
      × (read_mem_hex after (address ++ b',' ∷ count) read_len ≡ some (hex bs))
read_mem_hex-write_mem_hex m address count bs more write_len read_len q ha la hc lc hb e hn hw hr
      out =
    let stands = bytes_at-put_bytes bs m (hex_to_word address) hb in
    rw (write_mem_hex-text m address count bs more write_len ha la hc lc hb e hn hw) (
      refl,
      stands,
      put_bytes-outside bs m (hex_to_word address) q out,
      read_mem_hex-text _ address count bs read_len ha la stands e hn hr,
    )
