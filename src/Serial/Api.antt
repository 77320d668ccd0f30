-- ===== src/Serial/Api.antt =====
-- What the rest of the stub calls of serial.c: characters, strings and buffers in and out, and the
-- counters.
use rpi_stub.Common.{
  ℕ, zero, suc, ◌+◌, ◌-◌, ◌*◌, Bool, true, false, Option, none, some, [], ◌∷◌, ◌==◌, ltb, leb,
  if◌then◌else◌, Bytes, drop,
}
use rpi_stub.Serial.Uart.{
  Serial, buff_size, is_full, is_empty, push, front, pop, reading, serial_tx, serial_poll,
}

-- `serial_start_tx`
unfoldable pub start_tx : Serial → Serial
unfolding serial_tx
start_tx s = serial_tx (reading s.uart).room (record s { tx_irq = true; uart = drop 1 s.uart })

-- `serial_tx_free`
unfoldable pub tx_free : Serial → ℕ
tx_free s =
    if ltb s.tx.head s.tx.tail then s.tx.head + buff_size - s.tx.tail else s.tx.head - s.tx.tail

-- `serial_rx_used`
unfoldable pub rx_used : Serial → ℕ
rx_used s =
    if ltb s.rx.tail s.rx.head then s.rx.tail + buff_size - s.rx.head else s.rx.tail - s.rx.head

-- the poll before a read, where the buffer is empty
unfoldable pub wait_rx : Serial → Serial
unfolding serial_poll
wait_rx s = if is_empty s.rx then serial_poll s else s

-- `serial_get_char`; `none` is its -1
unfoldable pub get_char : Serial → Option ℕ × Serial
unfolding wait_rx pop serial_poll
get_char s =
    let t = wait_rx s in
    if is_empty t.rx
    then (none, t)
    else (some (front t.rx), serial_poll (record t { rx = pop t.rx }))

-- the poll before a write, where the buffer is full
unfoldable pub wait_tx : Serial → Serial
unfolding serial_poll
wait_tx s = if is_full s.tx then serial_poll s else s

-- `serial_write_char`: whether it was written
unfoldable pub write_char : ℕ → Serial → Bool × Serial
unfolding wait_tx push
write_char c s =
    let t = wait_tx s in if is_full t.tx then (false, t) else (true, record t { tx = push c t.tx })

-- `serial_put_char`
unfoldable pub put_char : ℕ → Serial → Bool × Serial
unfolding write_char start_tx
put_char c s =
    let (written, t) = write_char c s in if written then (true, start_tx t) else (false, t)

-- The loop of `serial_get_string`: the rounds left, `m` and `tries`; the bytes that it stores.
unfoldable pub string_loop : ℕ → ℕ → ℕ → ℕ → Serial → Bytes × Serial
unfolding serial_poll pop
string_loop zero delim m tries s = ([], s)
string_loop (suc f) delim zero tries s = ([], s)
string_loop (suc f) delim (suc m) tries s =
    let again = string_loop f delim (suc m) (tries - 1) (serial_poll s) in
    let t = record s { rx = pop s.rx } in
    let (more, u) = string_loop f delim m 10 (serial_poll t) in
    if is_empty s.rx
    then if tries == 0 then ([], s) else again
    else if front s.rx == delim
    then (front s.rx ∷ [], t)
    else (front s.rx ∷ more, u)

-- rounds enough: a character takes at most eleven
abbrev pub string_fuel : ℕ → ℕ
string_fuel n = 11 * n + 6

-- `serial_get_string`: the bytes that it stores, as many as it returns
unfoldable pub get_string : ℕ → ℕ → Serial → Bytes × Serial
unfolding string_loop
get_string delim n s = string_loop (string_fuel n) delim n 5 s

-- The loop of `serial_put_string`: the rounds left, the string, `n`, `m` and `retry`.
unfoldable pub put_loop : ℕ → Bytes → ℕ → ℕ → ℕ → Serial → ℕ × Serial
unfolding write_char
put_loop zero st n m retry s = (m, s)
put_loop (suc f) [] n m retry s = (m, s)
put_loop (suc f) (c ∷ st) n m retry s =
    let (written, t) = write_char c s in
    let next = put_loop f st n (m + 1) 0 t in
    let again = put_loop f (c ∷ st) n m (retry + 1) t in
    if c == 0
    then (m, s)
    else if leb m n
    then if written then next else if ltb 10 (retry + 1) then (m, t) else again
    else (m, s)

-- `serial_put_string`
unfoldable pub put_string : Bytes → ℕ → Serial → ℕ × Serial
unfolding put_loop start_tx
put_string st n s =
    let (m, t) = put_loop (12 * (n + 2)) st n 0 0 s in if ltb 0 m then (m, start_tx t) else (m, t)

-- the loop of `serial_read`, with `m` characters to go
unfoldable pub read_loop : ℕ → Serial → Bytes × Serial
unfolding wait_rx pop
read_loop zero s = ([], s)
read_loop (suc m) s =
    let t = wait_rx s in
    let (rest, u) = read_loop m (record t { rx = pop t.rx }) in
    if is_empty t.rx then ([], t) else (front t.rx ∷ rest, u)

-- `serial_read`: the bytes that it stores, as many as it returns
unfoldable pub serial_read : ℕ → Serial → Bytes × Serial
unfolding read_loop
serial_read n s = read_loop n s

-- the loop of `serial_write` over the bytes to go: how many it writes
unfoldable pub write_loop : Bytes → Serial → ℕ × Serial
unfolding write_char
write_loop [] s = (0, s)
write_loop (c ∷ buf) s =
    let (written, t) = write_char c s in
    let (n, u) = write_loop buf t in if written then (n + 1, u) else (0, t)

-- `serial_write`
unfoldable pub serial_write : Bytes → Serial → ℕ × Serial
unfolding write_loop start_tx
serial_write [] s = (0, s)
serial_write (c ∷ buf) s = let (n, t) = write_loop (c ∷ buf) s in (n, start_tx t)

-- `serial_get_rx_dropped`, `serial_get_rx_ovr` and `serial_get_ctrl_c`: read and clear
unfoldable pub get_rx_dropped : Serial → ℕ × Serial
get_rx_dropped s = (s.rx_dropped_count, record s { rx_dropped_count = 0 })

unfoldable pub get_rx_ovr : Serial → ℕ × Serial
get_rx_ovr s = (s.rx_ovr_count, record s { rx_ovr_count = 0 })

unfoldable pub get_ctrl_c : Serial → Bool × Serial
get_ctrl_c s = (s.ctrl_c, record s { ctrl_c = false })

-- `serial_enable_ctrlc` and `serial_disable_ctrlc`
unfoldable pub set_ctrlc : Bool → Serial → Serial
set_ctrlc on s = record s { handle_ctrlc = on }
