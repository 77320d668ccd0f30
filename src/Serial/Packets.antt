-- ===== src/Serial/Packets.antt =====
-- From the UART's words to a packet: `serial_rx`, then `receive_packet` on the serial driver.
use rpi_stub.Common.{
  some, ℕ, suc, ◌+◌, ◌-◌, ◌≤◌, ◌<◌, ◌≡◌, ap, ◌∙◌, sym, false, [], ◌∷◌, ◌++◌, Bytes, length,
  append-nil, arith,
}
use rpi_stub.Common.Int.{pos}
use rpi_stub.Packet.Frame.{max_msg_len, out_packet, received, receive_packet}
use rpi_stub.Packet.Frame.Receiving.{NoHash, receive_packet-out_packet}
use rpi_stub.Serial.Uart.{RxFifo, Serial, buff_size, serial_rx}
use rpi_stub.Serial.Ring.{contents, used, IsRing}
use rpi_stub.Serial.Receive.{kept, serial_rx-contents, serial_rx-masked}
use rpi_stub.Serial.Device.{serial_device, serial_device-Receives, Ready}

-- With UART interrupts on and an empty receive buffer, the frame that `gdb_send_packet` makes of a
-- payload of 1 to 1020 bytes without `#`, in the words of the FIFO at one receive interrupt, is
-- received as that payload, and the buffer is empty again. The FIFO's words fit the buffer.
pub receive_packet-serial_rx :
    (rounds outside : ℕ) (payload out : Bytes) (f : RxFifo) (s : Serial)
    → IsRing s.rx
    → contents s.rx ≡ []
    → s.masked ≡ false
    → out_packet payload ≡ some out
    → kept s.handle_ctrlc f.words ≡ out
    → suc (used s.rx) < buff_size
    → used s.rx + length f.words < buff_size
    → NoHash payload
    → 0 < rounds
    → 0 < length payload
    → length payload ≤ max_msg_len - 4
    → (t : Serial) × (receive_packet serial_device rounds outside (serial_rx f s)
        ≡ received (pos (length payload)) (payload ++ 0 ∷ []) t)
      × Ready t []
receive_packet-serial_rx rounds outside payload out f s v empty off sends words room fits hp h0 h1
      h2 =
    let (v', c, traps, dropped, tx) = serial_rx-contents f s v room fits in
    receive_packet-out_packet serial_device serial_device-Receives rounds outside [] payload out []
      (serial_rx f s) (omega arith) hp h0 h1 h2 sends
      (record {
        ring = v';
        unmasked = serial_rx-masked f s ∙ off;
        holds = c ∙ ap (λ l. l ++ kept s.handle_ctrlc f.words) empty ∙ words ∙ sym (append-nil out);
      })
