-- ===== src/Serial/Tests.antt =====
-- The serial driver at concrete states.
use rpi_stub.Common.{
  some, ℕ, suc, ◌+◌, ◌-◌, ◌≡◌, refl, ◌⊎◌, true, false, [], ◌∷◌, ◌++◌, Bytes, if◌then◌else◌, codes,
  length, drop, replicate, until, arith,
}
use rpi_stub.Common.Int.{pos}
use rpi_stub.Util.Hex.{nib_to_hex}
use rpi_stub.Packet.Frame.{out_packet, received, receive_packet}
use rpi_stub.Serial.Uart.{Ring, RxFifo, Serial, buff_size, is_empty, serial_rx, serial_tx}
use rpi_stub.Serial.Rounds.{get_string-rounds}
use rpi_stub.Serial.Api.{string_loop, string_fuel, get_string, serial_write}
use rpi_stub.Serial.Ring.{used, window, contents, IsRing}
use rpi_stub.Serial.Receive.{kept, interrupts, serial_rx-contents, serial_rx_full, serial_rx_lost}
use rpi_stub.Serial.Transmit.{line, serial_tx-line, serial_write-line}
use rpi_stub.Serial.Stream.{get_string-until}
use rpi_stub.Serial.Device.{serial_device, Ready}
use rpi_stub.Serial.Packets.{receive_packet-serial_rx}

abbrev ring : Bytes → ℕ → ℕ → Ring
ring text head tail = record {
  buff = text ++ replicate (buff_size - length text) 0;
  head = head;
  tail = tail;
}

abbrev with_rings : Ring → Ring → Serial
with_rings r t = record {
  rx = r;
  tx = t;
  rx_dropped_count = 0;
  rx_ovr_count = 0;
  handle_ctrlc = true;
  ctrl_c = false;
  masked = false;
  tx_irq = false;
  sent = [];
  traps = 0;
  uart = [];
}

-- "ab" received, "cd" to be sent
abbrev some_text : Serial
some_text = with_rings (ring (codes "ab") 0 2) (ring (codes "cd") 0 2)

-- an empty buffer, and two with 1023 characters
abbrev nothing : Serial
nothing = with_rings (ring [] 0 0) (ring [] 0 0)

abbrev full_at_5 : Serial
full_at_5 = with_rings (ring [] 5 4) (ring [] 0 0)

abbrev full_at_0 : Serial
full_at_0 = with_rings (ring [] 0 1023) (ring [] 0 0)

ring_two : IsRing some_text.rx × IsRing some_text.tx
ring_two = (
  record { size = refl; head_lt = omega arith; tail_lt = omega arith },
  record { size = refl; head_lt = omega arith; tail_lt = omega arith },
)

ring_nothing : IsRing nothing.rx
ring_nothing = record { size = refl; head_lt = omega arith; tail_lt = omega arith }

ring_full : IsRing full_at_5.rx × IsRing full_at_0.rx
ring_full = (
  record { size = refl; head_lt = omega arith; tail_lt = omega arith },
  record { size = refl; head_lt = omega arith; tail_lt = omega arith },
)

two_used : (used some_text.rx ≡ 2) × (used some_text.tx ≡ 2) × (used nothing.rx ≡ 0)
unfolding used
two_used = (refl, refl, refl)

full_used : (suc (used full_at_5.rx) ≡ buff_size) × (suc (used full_at_0.rx) ≡ buff_size)
unfolding used
full_used = (refl, refl)

abbrev fifo : RxFifo
fifo = record { full = false; words = codes "$m8000,4#" }

serial_rx-contents_example :
    IsRing (serial_rx fifo some_text).rx
    × (contents (serial_rx fifo some_text).rx ≡ contents some_text.rx ++ kept true fifo.words)
    × ((serial_rx fifo some_text).traps ≡ interrupts true fifo.words + some_text.traps)
    × ((serial_rx fifo some_text).rx_dropped_count ≡ some_text.rx_dropped_count)
    × ((serial_rx fifo some_text).tx ≡ some_text.tx)
serial_rx-contents_example =
    serial_rx-contents fifo some_text ring_two.0 (omega (arith, two_used.0))
      (omega (arith, two_used.0))

serial_rx_full_example :
    ((serial_rx fifo full_at_5).rx ≡ full_at_5.rx)
    × ((serial_rx fifo full_at_5).rx_dropped_count
        ≡ (if fifo.full then 1 else 0) + full_at_5.rx_dropped_count)
serial_rx_full_example = serial_rx_full fifo full_at_5 ring_full.0 full_used.0 (omega arith)

serial_rx_lost_example :
    (contents (serial_rx (record { full = false; words = b'#' ∷ [] }) full_at_0).rx ≡ [])
    × ((serial_rx (record { full = false; words = b'#' ∷ [] }) full_at_0).rx_dropped_count
        ≡ full_at_0.rx_dropped_count)
serial_rx_lost_example = serial_rx_lost b'#' full_at_0 ring_full.1 full_used.1 refl refl

serial_tx-line_example :
    IsRing (serial_tx 1 some_text).tx
    × (line (serial_tx 1 some_text) ≡ line some_text)
    × (used (serial_tx 1 some_text).tx ≡ used some_text.tx - 1)
    × ((is_empty (serial_tx 1 some_text).tx ≡ true) × ((serial_tx 1 some_text).tx_irq ≡ false)
        ⊎ (is_empty (serial_tx 1 some_text).tx ≡ false)
          × ((serial_tx 1 some_text).tx_irq ≡ some_text.tx_irq))
serial_tx-line_example = serial_tx-line 1 some_text ring_two.1

serial_write-line_example :
    ((serial_write (codes "$OK#9a") some_text).0 ≡ length (codes "$OK#9a"))
    × IsRing (serial_write (codes "$OK#9a") some_text).1.tx
    × (line (serial_write (codes "$OK#9a") some_text).1 ≡ line some_text ++ codes "$OK#9a")
serial_write-line_example =
    serial_write-line (codes "$OK#9a") some_text ring_two.1 (omega (arith, two_used.1))

get_string-until_example :
    let (got, t) = get_string b'a' 10 some_text in
    let all = contents some_text.rx in
    (got ≡ until b'a' 10 all)
    × IsRing t.rx
    × (t.masked ≡ false)
    × (contents t.rx ≡ drop (length (until b'a' 10 all)) all)
get_string-until_example = get_string-until b'a' 10 some_text ring_two.0 refl

abbrev ok_words : RxFifo
ok_words = record { full = false; words = codes "$OK#9a" }

ok_packet :
    (contents nothing.rx ≡ [])
    × (out_packet (codes "OK") ≡ some (codes "$OK#9a"))
    × (kept nothing.handle_ctrlc ok_words.words ≡ codes "$OK#9a")
unfolding used window kept out_packet nib_to_hex
ok_packet = (refl, refl, refl)

receive_packet-serial_rx_example :
    (t : Serial) × (receive_packet serial_device 1 0 (serial_rx ok_words nothing)
      ≡ received (pos (length (codes "OK"))) (codes "OK" ++ 0 ∷ []) t)
    × Ready t []
receive_packet-serial_rx_example =
    receive_packet-serial_rx 1 0 (codes "OK") (codes "$OK#9a") ok_words nothing ring_nothing
      ok_packet.0 refl ok_packet.1 ok_packet.2 (omega (arith, two_used.2))
      (omega (arith, two_used.2)) (omega arith) (omega arith) (omega arith) (omega arith)

get_string-rounds_example :
    string_loop (string_fuel 10 + 7) b'#' 10 5 some_text ≡ get_string b'#' 10 some_text
get_string-rounds_example = get_string-rounds 7 b'#' 10 some_text
