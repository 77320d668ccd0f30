-- ===== src/Serial/Uart.antt =====
-- The driver's state, the interrupt side of it (`serial_rx`, `serial_tx`, `serial_irq`), and
-- `serial_poll`. What the UART's registers read during a run is an input: a list of readings.
use rpi_stub.Common.{
  ℕ, zero, suc, ◌+◌, ◌%◌, ◌^◌, Bool, true, false, List, [], ◌∷◌, ◌++◌, ◌==◌, ◌&&◌, if◌then◌else◌,
  bit_and, Bytes, get_or, set, drop,
}

-- `SER_RX_BUFF_SIZE` and `SER_TX_BUFF_SIZE`
abbrev pub buff_size : ℕ
buff_size = 1024

-- `ser_rx_buff`, `ser_rx_head`, `ser_rx_tail`, and the same for tx
pub record Ring : Type 0 where
  pub buff : Bytes
  pub head : ℕ
  pub tail : ℕ

-- The receive FIFO during one `serial_rx`: FR's bit for a full FIFO, and the words that DR gives
-- until FR says that it is empty.
pub record RxFifo : Type 0 where
  pub full : Bool
  pub words : List ℕ

-- What the registers read during one `serial_irq`, and in `serial_poll` before it: MIS in the poll,
-- MIS in the interrupt, the FIFO for each of its two calls of `serial_rx`, and how many words the
-- transmitter takes before FR says that it is full.
pub record Reading : Type 0 where
  pub status : ℕ
  pub mis : ℕ
  pub on_rx : RxFifo
  pub on_timeout : RxFifo
  pub room : ℕ

-- The variables of serial.c, the interrupt mask that `serial_poll` looks at, bit 5 of IMSC, the
-- bytes written to DR so far, the calls of `rpi2_pend_trap`, and the readings to come.
pub record Serial : Type 0 where
  pub rx : Ring
  pub tx : Ring
  pub rx_dropped_count : ℕ
  pub rx_ovr_count : ℕ
  pub handle_ctrlc : Bool
  pub ctrl_c : Bool
  pub masked : Bool
  pub tx_irq : Bool
  pub sent : Bytes
  pub traps : ℕ
  pub uart : List Reading

-- the driver's tests of a full and of an empty buffer
abbrev pub is_full : Ring → Bool
is_full r = r.tail + 1 == r.head

abbrev pub is_empty : Ring → Bool
is_empty r = r.tail == r.head

-- `buff[tail++] = c; tail %= SIZE`
unfoldable pub push : ℕ → Ring → Ring
push c r = record r { buff = set r.buff r.tail c; tail = (r.tail + 1) % buff_size }

-- `buff[head++]`, then `head %= SIZE`
abbrev pub front : Ring → ℕ
front r = get_or r.buff r.head 0

unfoldable pub pop : Ring → Ring
pop r = record r { head = (r.head + 1) % buff_size }

-- what `serial_rx` does with a word wherever it reads one: the overrun count
abbrev pub count_overrun : ℕ → Serial → Serial
count_overrun ch s = record s {
  rx_ovr_count = (if bit_and ch 0x800 == 0 then 0 else 1) + s.rx_ovr_count;
}

abbrev pub is_break : ℕ → Serial → Bool
is_break ch s = (bit_and ch 0xff == 3) && s.handle_ctrlc

abbrev pub on_break : Serial → Serial
on_break s = record s { ctrl_c = true; traps = s.traps + 1 }

-- the part of `serial_rx` for a full buffer: one word is dropped where the FIFO is full
unfoldable pub drop_word : RxFifo → Serial → Serial
drop_word f s =
    let ch = get_or f.words 0 0 in
    let dropped = count_overrun ch (record s { rx_dropped_count = s.rx_dropped_count + 1 }) in
    if is_full s.rx && f.full then if is_break ch s then on_break dropped else dropped else s

-- the loop of `serial_rx` over the FIFO's words
unfoldable pub rx_loop : List ℕ → Serial → Serial
unfolding push
rx_loop [] s = s
rx_loop (ch ∷ chs) s =
    let t = count_overrun ch s in
    let broken = rx_loop chs (on_break t) in
    let stored = rx_loop chs (record t { rx = push (bit_and ch 0xff) t.rx }) in
    if is_full s.rx then s else if is_break ch s then broken else stored

-- `serial_rx`
unfoldable pub serial_rx : RxFifo → Serial → Serial
unfolding drop_word rx_loop
serial_rx f s = rx_loop (if is_full s.rx && f.full then drop 1 f.words else f.words) (drop_word f s)

-- the loop of `serial_tx`, while the transmitter takes words
unfoldable pub tx_loop : ℕ → Serial → Serial
unfolding pop
tx_loop zero s = s
tx_loop (suc room) s =
    let rest = tx_loop room (record s { tx = pop s.tx; sent = s.sent ++ front s.tx ∷ [] }) in
    if is_empty s.tx then s else rest

-- `serial_tx`
unfoldable pub serial_tx : ℕ → Serial → Serial
unfolding tx_loop
serial_tx room s =
    let t = tx_loop room s in if is_empty t.tx then record t { tx_irq = false } else t

-- `serial_irq`
unfoldable pub serial_irq : Reading → Serial → Serial
unfolding serial_rx serial_tx
serial_irq r s =
    let s1 = if bit_and r.mis (2 ^ 4) == 0 then s else serial_rx r.on_rx s in
    let s2 = if bit_and r.mis (2 ^ 5) == 0 then s1 else serial_tx r.room s1 in
    if bit_and r.mis (2 ^ 6) == 0 then s2 else serial_rx r.on_timeout s2

abbrev pub idle : Reading
idle = record {
  status = 0;
  mis = 0;
  on_rx = record { full = false; words = [] };
  on_timeout = record { full = false; words = [] };
  room = 0;
}

-- the next reading, and the readings behind it
abbrev pub reading : List Reading → Reading
reading [] = idle
reading (r ∷ rs) = r

-- the loop of `serial_poll`, while MIS reads a UART interrupt
unfoldable pub poll_loop : List Reading → Serial → Serial
unfolding serial_irq
poll_loop [] s = record s { uart = [] }
poll_loop (r ∷ rs) s =
    let more = poll_loop rs (serial_irq r s) in
    if bit_and r.status (2 ^ 4 + 2 ^ 5 + 2 ^ 6) == 0 then record s { uart = rs } else more

-- `serial_poll`
unfoldable pub serial_poll : Serial → Serial
unfolding poll_loop serial_irq
serial_poll s =
    let t = poll_loop s.uart s in
    if s.masked
    then if is_empty t.tx
      then t
      else serial_irq (reading t.uart) (record t { uart = drop 1 t.uart })
    else s
