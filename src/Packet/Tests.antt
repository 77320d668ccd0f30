-- ===== src/Packet/Tests.antt =====
-- The data formats at concrete bytes.
use rpi_stub.Common.{
  ℕ, ◌-◌, ◌<◌, ◌⊎◌, refl, take, drop, some, ◌==◌, if◌then◌else◌, Option, none, until, ◌+◌, ◌*◌, ◌≡◌,
  [], ◌∷◌, ◌++◌, Bytes, codes, length, arith, ap, sym, length-take, take-length-take,
}
use rpi_stub.Common.Int.{pos, negsuc}
use rpi_stub.Util.Hex.{hex_to_nib, nib_to_hex}
use rpi_stub.Packet.Device.{IoDevice, Receives, Sends}
use rpi_stub.Packet.Frame.{sent, out_packet, send_packet, received, receive_packet}
use rpi_stub.Packet.Frame.Sending.{sum_of, frame, send_packet-frame, send_packet_third}
use rpi_stub.Packet.Frame.Receiving.{receive_packet-frame, receive_packet-out_packet}

abbrev word : Bytes
word = 0x23 ∷ 0x7f ∷ 0x24 ∷ 0x61 ∷ []

-- A device that gives the bytes of a list, and takes at most four bytes in one write.
abbrev first : Bytes → Bytes → Option ℕ × (Bytes × Bytes)
first [] out = (none, ([], out))
first (c ∷ cs) out = (some c, (cs, out))

abbrev queue : IoDevice (Bytes × Bytes)
queue = record {
  get_char = λ s. first s.0 s.1;
  get_string = λ delim n s. (until delim n s.0, (drop (length (until delim n s.0)) s.0, s.1));
  write = λ buf s. (length (take 4 buf), (s.0, s.1 ++ take 4 buf));
}

queue-Receives : Receives queue (λ s bs. s.0 ≡ bs)
queue-Receives = record {
  get_char-first = λ {s} b {bs} e. ((bs, s.1), ap (λ l. first l s.1) e, refl);
  get_string-until = λ {s} delim n {bs} e. (
    (drop (length (until delim n bs)) bs, s.1),
    ap (λ l. (until delim n l, (drop (length (until delim n l)) l, s.1))) e,
    refl,
  );
}

queue-Sends : Sends queue (λ s. s.1)
queue-Sends = record {
  write-prefix = λ buf s.
      (omega (arith, length-take 4 buf), ap (λ b. s.1 ++ b) (sym (take-length-take 4 buf)));
}

two_writes :
    (queue.write (frame (codes "OK")) ([], []) ≡ (4, ([], codes "$OK#")))
    × (queue.write (drop 4 (frame (codes "OK"))) ([], codes "$OK#") ≡ (2, ([], codes "$OK#9a")))
    × (length (frame (codes "OK")) ≡ 6)
unfolding frame sum_of nib_to_hex
two_writes = (refl, refl, refl)

send_packet-frame_example :
    ((4 ≡ length (frame (codes "OK")))
      × (send_packet queue 1 (codes "OK") ([], []) ≡ sent (pos 4) ([], codes "$OK#"))
      × (codes "$OK#" ≡ [] ++ frame (codes "OK")))
    ⊎ ((4 < length (frame (codes "OK")))
        × (send_packet queue 1 (codes "OK") ([], []) ≡ sent (pos 2) ([], codes "$OK#9a"))
        × (codes "$OK#9a" ≡ [] ++ frame (codes "OK")))
send_packet-frame_example =
    send_packet-frame queue (λ s. s.1) queue-Sends 0 (codes "OK") 4 2 ([], []) ([], codes "$OK#")
      ([], codes "$OK#9a") (omega arith) two_writes.0 two_writes.1 (omega (arith, two_writes.2))

abbrev stopped : Bytes
stopped = codes "T05stop"

three_writes :
    (queue.write (frame stopped) ([], []) ≡ (4, ([], codes "$T05")))
    × (queue.write (drop 4 (frame stopped)) ([], codes "$T05") ≡ (4, ([], codes "$T05stop")))
    × (queue.write
          (take (length (frame stopped) - 4 - 4) (drop 4 (frame stopped)))
          ([], codes "$T05stop")
        ≡ (3, ([], codes "$T05stopsto")))
    × (length (frame stopped) ≡ 11)
unfolding frame sum_of nib_to_hex
three_writes = (refl, refl, refl, refl)

send_packet_third_example :
    (send_packet queue 2 stopped ([], []) ≡ sent (pos 3) ([], codes "$T05stopsto"))
    × (codes "$T05stopsto" ≡ codes "$T05stop" ++ take 3 (drop 4 (frame stopped)))
send_packet_third_example =
    send_packet_third queue (λ s. s.1) queue-Sends 0 stopped 4 4 3 ([], []) ([], codes "$T05")
      ([], codes "$T05stop") ([], codes "$T05stopsto") (omega arith) three_writes.0 three_writes.1
      three_writes.2 (omega (arith, three_writes.3)) (omega (arith, three_writes.3))

nibs : (hex_to_nib b'9' ≡ some 9) × (hex_to_nib b'b' ≡ some 11)
unfolding hex_to_nib
nibs = (refl, refl)

receive_packet-frame_example :
    (t : Bytes × Bytes) × (receive_packet queue 2 0 (codes "+$OK#9b+", [])
      ≡ received
          (if 9 * 16 + 11 == sum_of (codes "OK") then pos 2 else negsuc 1)
          (codes "OK" ++ 0 ∷ [])
          t)
    × (t.0 ≡ codes "+")
receive_packet-frame_example =
    receive_packet-frame queue queue-Receives 2 0 b'9' b'b' 9 11 (codes "+") (codes "OK")
      (codes "+") (codes "+$OK#9b+", []) (omega arith) (omega arith) (omega arith) (omega arith)
      (omega arith) nibs.0 nibs.1 refl

ok_packet : out_packet (codes "OK") ≡ some (codes "$OK#9a")
unfolding out_packet nib_to_hex
ok_packet = refl

receive_packet-out_packet_example :
    (t : Bytes × Bytes) × (receive_packet queue 2 0 (codes "+$OK#9a+", [])
      ≡ received (pos (length (codes "OK"))) (codes "OK" ++ 0 ∷ []) t)
    × (t.0 ≡ codes "+")
receive_packet-out_packet_example =
    receive_packet-out_packet queue queue-Receives 2 0 (codes "+") (codes "OK") (codes "$OK#9a")
      (codes "+") (codes "+$OK#9a+", []) (omega arith) (omega arith) (omega arith) (omega arith)
      (omega arith) ok_packet refl
