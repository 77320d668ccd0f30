-- ===== src/Packet/Frame/Sending.antt =====
-- The frame that `gdb_send_packet` builds, and how it goes on the line.
use rpi_stub.Common.{
  ℕ, zero, suc, ◌+◌, ◌-◌, ◌/◌, ◌%◌, ◌^◌, ◌≤◌, ◌<◌, ◌≡◌, ap, ap₂, ◌∙◌, sym, true, false, some, [],
  ◌∷◌, ◌++◌, Bytes, ◌==◌, ltb, bit_and, bit_and-field, bit_and-mask, length, length-append, take,
  drop, take_of_le, append_assoc, Bool-cases, inl, inr, ◌⊎◌, arith, subst, ==_iff, length-drop,
  take-append-drop, take-take,
}
use rpi_stub.Common.Int.{pos}
use rpi_stub.Util.Hex.{nib_to_hex}
use rpi_stub.Util.Hex.RoundTrip.{digit}
use rpi_stub.Packet.Device.{IoDevice, Sends}
use rpi_stub.Packet.Frame.{
  max_msg_len, checksum, framed, out_packet, sent, send_loop, send_packet, hash,
}

-- the sum of a payload's bytes on eight bits
unfoldable pub sum_of : Bytes → ℕ
sum_of [] = 0
sum_of (c ∷ bs) = (c + sum_of bs) % 256

-- `$`, the payload, `#` and the two digits of its sum
unfoldable pub frame : Bytes → Bytes
frame bs = b'$' ∷ (bs ++ hash ∷ digit (sum_of bs / 16) ∷ digit (sum_of bs % 16) ∷ [])

checksum-sum_of : (bs : Bytes) (sum : ℕ) → checksum bs sum % 256 ≡ (sum + sum_of bs) % 256
unfolding checksum sum_of
checksum-sum_of [] sum = omega arith
checksum-sum_of (c ∷ bs) sum =
    rw (bit_and-mask 8 (sum + c)) (omega (arith, checksum-sum_of bs ((sum + c) % 2 ^ 8)))

pub sum_of_lt : (bs : Bytes) → sum_of bs < 256
unfolding sum_of
sum_of_lt [] = omega arith
sum_of_lt (c ∷ bs) = omega arith

checksum_lt : (bs : Bytes) (sum : ℕ) → sum < 256 → checksum bs sum < 256
unfolding checksum
checksum_lt [] sum h = h
checksum_lt (c ∷ bs) sum h = checksum_lt bs _ (rw (bit_and-mask 8 (sum + c)) (omega arith))

checksum_zero : (bs : Bytes) → checksum bs 0 ≡ sum_of bs
checksum_zero bs = omega (arith, checksum-sum_of bs 0, sum_of_lt bs, checksum_lt bs 0 (omega arith))

nib_to_hex-digit :
    (v : ℕ) → v < 16 → (nib_to_hex (pos v) ≡ some (digit v)) × ((digit v == 0) ≡ false)
unfolding nib_to_hex
nib_to_hex-digit v h = (ground arith, ground arith)

framed-digits :
    (sum : ℕ) (bs : Bytes)
    → sum < 256
    → framed (nib_to_hex (pos (sum / 16))) (nib_to_hex (pos (sum % 16))) bs
      ≡ some (b'$' ∷ (bs ++ hash ∷ digit (sum / 16) ∷ digit (sum % 16) ∷ []))
unfolding framed
framed-digits sum bs h =
    let (hi, hz) = nib_to_hex-digit (sum / 16) (omega arith) in
    let (lo, lz) = nib_to_hex-digit (sum % 16) (omega arith) in rw (hi, lo, hz, lz)

high_nibble : (sum : ℕ) → bit_and sum 0xf0 / 16 ≡ sum / 16 % 16
high_nibble sum = rw (bit_and-field 4 4 sum) (omega arith)

pub out_packet-frame : (bs : Bytes) → out_packet bs ≡ some (frame bs)
unfolding out_packet frame
out_packet-frame bs =
    let high : bit_and (checksum bs 0) 0xf0 / 16 ≡ sum_of bs / 16 =
      high_nibble (checksum bs 0) ∙ omega (arith, checksum_zero bs, sum_of_lt bs) in
    let low : bit_and (checksum bs 0) 0x0f ≡ sum_of bs % 16 =
      bit_and-mask 4 (checksum bs 0) ∙ ap (λ (t : ℕ). t % 16) (checksum_zero bs) in
    ap₂ (λ x y. framed (nib_to_hex (pos x)) (nib_to_hex (pos y)) bs) high low
    ∙ framed-digits (sum_of bs) bs (sum_of_lt bs)

length-frame : (bs : Bytes) → length (frame bs) ≡ length bs + 4
unfolding frame
length-frame bs =
    omega (arith, length-append bs (hash ∷ digit (sum_of bs / 16) ∷ digit (sum_of bs % 16) ∷ []))

-- Sending: the frame of a payload goes on the line, in two writes at most.
module _ {S : Type 0} (device : IoDevice S) (line : S → Bytes) (works : Sends device line) where
  send_loop_done :
      (rounds : ℕ) (out : Bytes) (wbc cnt : ℕ) (s : S)
      → cnt ≤ wbc
      → send_loop device rounds out wbc cnt s ≡ sent (pos cnt) s
  unfolding send_loop
  send_loop_done zero out wbc cnt s h = ground arith
  send_loop_done (suc rounds) out wbc cnt s h = ground arith

  send_packet-loop :
      (rounds : ℕ) (bs : Bytes) (s : S)
      → length bs ≤ max_msg_len - 4
      → send_packet device rounds bs s ≡ (
          let (first, t) = device.write (frame bs) s in
          send_loop device rounds (frame bs) first (length bs + 4) t)
  unfolding send_packet
  send_packet-loop rounds bs s h =
      let fits : ltb (max_msg_len - 4) (length bs) ≡ false = ground arith in
      rw (fits, out_packet-frame bs)

  send_loop_next :
      (rounds : ℕ) (out : Bytes) (wbc cnt second : ℕ) (s u : S)
      → wbc < cnt
      → device.write (take (cnt - wbc) (drop wbc out)) s ≡ (second, u)
      → send_loop device (suc rounds) out wbc cnt s
        ≡ send_loop device rounds out second (cnt - wbc) u
  unfolding send_loop
  send_loop_next rounds out wbc cnt second s u h e =
      let more : ltb wbc cnt ≡ true = ground arith in rw (more, e)

  -- For a payload of at most 1020 bytes, a driver that puts a beginning of each write on the line,
  -- and takes the frame at once, or a part of it and then the rest, has the whole frame on the
  -- line. The result is the number of bytes of the last write.
  pub send_packet-frame :
      (rounds : ℕ) (bs : Bytes) (first second : ℕ) (s t u : S)
      → length bs ≤ max_msg_len - 4
      → device.write (frame bs) s ≡ (first, t)
      → device.write (drop first (frame bs)) t ≡ (second, u)
      → second ≡ length (frame bs) - first
      → ((first ≡ length (frame bs))
          × (send_packet device (suc rounds) bs s ≡ sent (pos first) t)
          × (line t ≡ line s ++ frame bs))
        ⊎ ((first < length (frame bs))
            × (send_packet device (suc rounds) bs s ≡ sent (pos second) u)
            × (line u ≡ line s ++ frame bs))
  send_packet-frame rounds bs first second s t u h e1 e2 all =
      let total = length-frame bs in
      let (le, l1) =
        subst (λ r. (r.0 ≤ length (frame bs)) × (line r.1 ≡ line s ++ take r.0 (frame bs))) e1
          (works.write-prefix (frame bs) s) in
      let (le2, l2) =
        subst
          (λ r.
            (r.0 ≤ length (drop first (frame bs)))
            × (line r.1 ≡ line t ++ take r.0 (drop first (frame bs))))
          e2 (works.write-prefix (drop first (frame bs)) t) in
      let step =
        send_packet-loop (suc rounds) bs s h
        ∙ ap (λ r. send_loop device (suc rounds) (frame bs) r.0 (length bs + 4) r.1) e1 in
      elim (Bool-cases (first == length (frame bs))) [
        | inl once ↦
            let whole = (==_iff _ _).0 once in
            inl (
              whole,
              step
                  ∙ send_loop_done (suc rounds) (frame bs) first (length bs + 4) t (omega arith)
                  ∙ ap (λ n. sent (pos n) t) (omega arith),
              l1 ∙ ap (λ b. line s ++ b) (take_of_le first (frame bs) (omega arith)),
            )
        | inr part ↦
            let less : first < length (frame bs) = ground arith in
            let rest : length (drop first (frame bs)) ≡ second =
              length-drop first (frame bs) ∙ omega arith in
            inr (
              less,
              step
                  ∙ send_loop_next rounds (frame bs) first (length bs + 4) second t u (omega arith)
                      (ap (λ b. device.write b t)
                          (take_of_le (length bs + 4 - first) (drop first (frame bs)) (omega arith))
                        ∙ e2)
                  ∙ send_loop_done rounds (frame bs) second (length bs + 4 - first) u (omega arith)
                  ∙ ap (λ n. sent (pos n) u) (omega arith),
              l2
                  ∙ ap₂ (λ a b. a ++ b) l1 (take_of_le second (drop first (frame bs)) (omega arith))
                  ∙ append_assoc (line s) (take first (frame bs)) (drop first (frame bs))
                  ∙ ap (λ b. line s ++ b) (take-append-drop first (frame bs)),
            )
      ]

  -- For a payload of at most 1020 bytes, where the driver takes the frame in three writes, the
  -- third starts in the wrong place: its offset into the frame is the length of the second write,
  -- not the sum of the first two.
  pub send_packet_third :
      (rounds : ℕ) (bs : Bytes) (first second third : ℕ) (s t u v : S)
      → length bs ≤ max_msg_len - 4
      → device.write (frame bs) s ≡ (first, t)
      → device.write (drop first (frame bs)) t ≡ (second, u)
      → device.write (take (length (frame bs) - first - second) (drop second (frame bs))) u
        ≡ (third, v)
      → first + second < length (frame bs)
      → third ≡ length (frame bs) - first - second
      → (send_packet device (suc (suc rounds)) bs s ≡ sent (pos third) v)
        × (line v ≡ line u ++ take third (drop second (frame bs)))
  send_packet_third rounds bs first second third s t u v h e1 e2 e3 less all =
      let total = length-frame bs in
      let (le3, l3) =
        subst
          (λ r.
            (r.0 ≤ length (take (length (frame bs) - first - second) (drop second (frame bs))))
            × (line r.1
                ≡ line u
                  ++ take r.0 (take (length (frame bs) - first - second) (drop second (frame bs)))))
          e3
          (works.write-prefix (take (length (frame bs) - first - second) (drop second (frame bs)))
            u) in
      let count : length bs + 4 - first - second ≡ length (frame bs) - first - second =
        omega arith in
      let rest : length (drop first (frame bs)) ≡ length (frame bs) - first =
        length-drop first (frame bs) in
      (
        send_packet-loop (suc (suc rounds)) bs s h
            ∙ ap (λ r. send_loop device (suc (suc rounds)) (frame bs) r.0 (length bs + 4) r.1) e1
            ∙ send_loop_next (suc rounds) (frame bs) first (length bs + 4) second t u (omega arith)
                (ap (λ b. device.write b t)
                    (take_of_le (length bs + 4 - first) (drop first (frame bs)) (omega arith))
                  ∙ e2)
            ∙ send_loop_next rounds (frame bs) second (length bs + 4 - first) third u v
                (omega arith)
                (ap (λ n. device.write (take n (drop second (frame bs))) u) count ∙ e3)
            ∙ send_loop_done rounds (frame bs) third (length bs + 4 - first - second) v
                (omega arith)
            ∙ ap (λ n. sent (pos n) v) (omega arith),
        l3
            ∙ ap (λ b. line u ++ b)
                (ap (λ n. take third (take n (drop second (frame bs)))) (sym all)
                  ∙ take-take third (drop second (frame bs))),
      )
