-- ===== src/Serial/Transmit.antt =====
-- What `serial_tx` does with the transmit buffer, and `serial_write` with the bytes it is given.
use rpi_stub.Common.{
  ℕ, zero, suc, ◌+◌, ◌-◌, ◌<◌, ◌≡◌, refl, ap, ◌∙◌, sym, true, false, [], ◌∷◌, ◌++◌, Bytes, length,
  drop, append_assoc, append-nil, arith, Bool-cases, inl, inr, ◌⊎◌,
}
use rpi_stub.Serial.Uart.{
  Serial, buff_size, is_empty, push, pop, front, tx_loop, serial_tx, reading,
}
use rpi_stub.Serial.Api.{write_char, write_loop, serial_write, start_tx, wait_tx}
use rpi_stub.Serial.Ring.{
  used, contents, IsRing, push-IsRing, pop-IsRing, used-push, used-pop, is_empty-used,
  contents-push, contents-pop, not_full,
}

-- the bytes written to the UART so far, and then those that wait for it
abbrev pub line : Serial → Bytes
line s = s.sent ++ contents s.tx

abbrev Sent : ℕ → Serial → Serial → Type 0
Sent room s t =
    IsRing t.tx
    × (line t ≡ line s)
    × (used t.tx ≡ used s.tx - room)
    × (t.tx_irq ≡ s.tx_irq)
    × (t.rx ≡ s.rx)

tx_loop-Sent : (room : ℕ) (s : Serial) → IsRing s.tx → Sent room s (tx_loop room s)
unfolding tx_loop
tx_loop-Sent zero s v = (v, refl, omega arith, refl, refl)
tx_loop-Sent (suc room) s v = elim (Bool-cases (is_empty s.tx)) [
  | inl e ↦ simp e (v, refl, omega (arith, is_empty-used v e), refl, refl)
  | inr more ↦
      let next = record s { tx = pop s.tx; sent = s.sent ++ front s.tx ∷ [] } in
      let (v', l, u, i, r) = tx_loop-Sent room next (pop-IsRing v) in
      simp more (
        v',
        l
            ∙ append_assoc s.sent (front s.tx ∷ []) (contents (pop s.tx))
            ∙ ap (λ c. s.sent ++ c) (sym (contents-pop v more)),
        omega (arith, used-pop v more),
        i,
        r,
      )
]

-- On a ring whose indices lie in the buffer, `serial_tx` loses and reorders nothing: what it has
-- sent, and then the buffer, stay the same line of bytes. It sends as many as the transmitter has
-- room for, and switches the transmit interrupt off exactly where the buffer is empty behind it.
-- The ring stays in order.
pub serial_tx-line :
    (room : ℕ) (s : Serial)
    → IsRing s.tx
    → IsRing (serial_tx room s).tx
      × (line (serial_tx room s) ≡ line s)
      × (used (serial_tx room s).tx ≡ used s.tx - room)
      × ((is_empty (serial_tx room s).tx ≡ true) × ((serial_tx room s).tx_irq ≡ false)
          ⊎ (is_empty (serial_tx room s).tx ≡ false) × ((serial_tx room s).tx_irq ≡ s.tx_irq))
unfolding serial_tx
serial_tx-line room s v =
    let (v', l, u, i, r) = tx_loop-Sent room s v in
    elim (Bool-cases (is_empty (tx_loop room s).tx)) [
      | inl e ↦ simp e (v', l, u, inl (refl, refl))
      | inr e ↦ simp e (v', l, u, inr (refl, i))
    ]

line_snoc : (a b : Bytes) (c : ℕ) (d : Bytes) → (a ++ (b ++ c ∷ [])) ++ d ≡ (a ++ b) ++ c ∷ d
line_snoc a b c d =
    append_assoc a (b ++ c ∷ []) d
    ∙ ap (λ l. a ++ l) (append_assoc b (c ∷ []) d)
    ∙ sym (append_assoc a b (c ∷ d))

write_loop-line :
    (buf : Bytes) (s : Serial)
    → IsRing s.tx
    → used s.tx + length buf < buff_size
    → ((write_loop buf s).0 ≡ length buf)
      × IsRing (write_loop buf s).1.tx
      × (line (write_loop buf s).1 ≡ line s ++ buf)
unfolding write_loop write_char wait_tx
write_loop-line [] s v h = (refl, v, sym (append-nil (line s)))
write_loop-line (c ∷ buf) s v h =
    let room : suc (used s.tx) < buff_size = omega arith in
    let (n, v', l) =
      write_loop-line buf (record s { tx = push c s.tx }) (push-IsRing c v)
        (omega (arith, used-push c v room)) in
    simp (not_full v room) (
      omega arith,
      v',
      l
          ∙ ap (λ q. (s.sent ++ q) ++ buf) (contents-push c v room)
          ∙ line_snoc s.sent (contents s.tx) c buf,
    )

-- On a ring whose indices lie in the buffer, where it holds at most 1023 characters with all the
-- bytes, `serial_write` takes all its bytes, and they go on the line behind those that were there,
-- whatever part of it the transmitter takes at once. The ring stays in order.
pub serial_write-line :
    (buf : Bytes) (s : Serial)
    → IsRing s.tx
    → used s.tx + length buf < buff_size
    → ((serial_write buf s).0 ≡ length buf)
      × IsRing (serial_write buf s).1.tx
      × (line (serial_write buf s).1 ≡ line s ++ buf)
unfolding serial_write start_tx
serial_write-line [] s v h = (refl, v, sym (append-nil (line s)))
serial_write-line (c ∷ buf) s v h =
    let (n, v', l) = write_loop-line (c ∷ buf) s v h in
    let t = (write_loop (c ∷ buf) s).1 in
    let (v'', l', u, i) =
      serial_tx-line (reading t.uart).room (record t { tx_irq = true; uart = drop 1 t.uart }) v' in
    (n, v'', l' ∙ l)
