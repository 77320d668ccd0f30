-- ===== src/Command/Memory/Cut.antt =====
-- The commands X and x (gdb.c), one behind the other.
use rpi_stub.Common.{
  ℕ, ◌+◌, ◌-◌, ◌*◌, ◌≤◌, ◌<◌, ◌≡◌, refl, ap, ◌∙◌, false, some, ◌∷◌, ◌++◌, Bytes, All, IsByte,
  length, take, arith,
}
use rpi_stub.Util.Hex.{hex_to_word}
use rpi_stub.Packet.Data.RoundTrip.{escaped, write_bin_loop-escaped, read_bin_loop-escaped}
use rpi_stub.Packet.Data.Count.{specials, length-escaped}
use rpi_stub.Packet.Frame.{max_msg_len}
use rpi_stub.Stub.Memory.{Memory, within}
use rpi_stub.Command.Memory.{
  bytes_at, put_bytes, ok_text, read_mem_bin, write_mem_bin, write_bin_at, write_bin_behind,
  read_bin_at,
}
use rpi_stub.Command.Argument.Text.{IsArgument, argument-text, zero_add}
use rpi_stub.Command.Memory.RoundTrip.{int_rounds-small, put_bytes-outside, bytes_at-put_bytes}

write_bin_behind-escaped :
    (m : Memory) (addr : ℕ) (bs more : Bytes) (packet_len : ℕ)
    → All IsByte bs
    → 2 * length bs ≤ 1019
    → 1 < packet_len
    → write_bin_behind m addr (length bs, escaped bs ++ more) packet_len
      ≡ (put_bytes m addr bs, some ok_text)
unfolding write_bin_behind
write_bin_behind-escaped m addr bs more packet_len hb hn hp =
    ground (arith, read_bin_loop-escaped bs more max_msg_len 0 hb (omega arith))

read_bin_at-escaped :
    (m : Memory) (addr : ℕ) (count bs : Bytes) (packet_len : ℕ)
    → bytes_at m addr (length bs) ≡ bs
    → hex_to_word count ≡ length bs
    → 2 * length bs ≤ 1019
    → 1 < packet_len
    → read_bin_at m (addr, count) packet_len ≡ some (take (length bs) (escaped bs))
unfolding read_bin_at
read_bin_at-escaped m addr count bs packet_len hm e hn hp =
    rw
      (
        e,
        int_rounds-small (length bs) hn,
        hm,
        write_bin_loop-escaped bs (max_msg_len - 5) 0 0 (omega arith),
        zero_add (length bs),
      )
      (ground arith)

write_mem_bin-text :
    (m : Memory) (address count bs more : Bytes) (packet_len : ℕ)
    → All (IsArgument b',') address
    → length address + 1 < 16
    → All (IsArgument b':') count
    → length count + 1 < 16
    → All IsByte bs
    → hex_to_word count ≡ length bs
    → 2 * length bs ≤ 1019
    → 1 < packet_len
    → write_mem_bin m (address ++ b',' ∷ (count ++ b':' ∷ (escaped bs ++ more))) packet_len
      ≡ (put_bytes m (hex_to_word address) bs, some ok_text)
unfolding write_mem_bin write_bin_at
write_mem_bin-text m address count bs more packet_len ha la hc lc hb e hn hp =
    ap (λ r. write_bin_at m r packet_len)
      (argument-text b',' address (count ++ b':' ∷ (escaped bs ++ more)) ha la)
    ∙ ap (λ r. write_bin_behind m (hex_to_word address) r packet_len)
        (argument-text b':' count (escaped bs ++ more) hc lc ∙ ap (λ n. (n, escaped bs ++ more)) e)
    ∙ write_bin_behind-escaped m (hex_to_word address) bs more packet_len hb hn hp

-- What the command X writes stands in memory, but the command x answers it cut: with an address and
-- a count in front of their delimiters, each of fewer than fifteen characters, as many escaped bytes
-- as the count says, at most 509, whatever follows them, and lengths above 1, X answers `OK`, the
-- bytes stand at the address and every byte of memory outside them is as it was; x with that address
-- and that count answers the first of the escaped text, as many characters as there are bytes,
-- where the text has one more for each `#`, `$`, `*` or `}` among them.
pub read_mem_bin-write_mem_bin :
    (m : Memory) (address count bs more : Bytes) (write_len read_len q : ℕ)
    → All (IsArgument b',') address
    → length address + 1 < 16
    → All (IsArgument b':') count
    → length count + 1 < 16
    → All IsByte bs
    → hex_to_word count ≡ length bs
    → 2 * length bs ≤ 1019
    → 1 < write_len
    → 1 < read_len
    → within (hex_to_word address) (length bs) q ≡ false
    → let text = escaped bs in
      let packet = address ++ b',' ∷ (count ++ b':' ∷ (text ++ more)) in
      let (after, answer) = write_mem_bin m packet write_len in
      (answer ≡ some ok_text)
      × (bytes_at after (hex_to_word address) (length bs) ≡ bs)
      × (after q ≡ m q)
      × (read_mem_bin after (address ++ b',' ∷ count) read_len ≡ some (take (length bs) text))
      × (length text ≡ length bs + specials bs)
unfolding read_mem_bin
read_mem_bin-write_mem_bin m address count bs more write_len read_len q ha la hc lc hb e hn hw hr
      out =
    let stands = bytes_at-put_bytes bs m (hex_to_word address) hb in
    rw (write_mem_bin-text m address count bs more write_len ha la hc lc hb e hn hw) (
      refl,
      stands,
      put_bytes-outside bs m (hex_to_word address) q out,
      ap (λ r. read_bin_at (put_bytes m (hex_to_word address) bs) r read_len)
            (argument-text b',' address count ha la)
          ∙ read_bin_at-escaped (put_bytes m (hex_to_word address) bs) (hex_to_word address) count
              bs read_len stands e hn hr,
      length-escaped bs,
    )
