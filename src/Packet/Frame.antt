-- ===== src/Packet/Frame.antt =====
-- `gdb_send_packet` and `receive_packet` (gdb.c). A plain `char` is unsigned, as on ARM; the debug
-- output under `#ifdef` is left out.
pub mod Sending
pub mod Receiving
use rpi_stub.Common.{
  ℕ, zero, suc, ◌+◌, ◌-◌, ◌*◌, ◌/◌, ◌%◌, Bool, true, false, Option, none, some, [], ◌∷◌, ◌++◌,
  Bytes, ◌==◌, ltb, leb, if◌then◌else◌, bit_and, length, take, drop, get_or,
}
use mathlib.Core.Option
use rpi_stub.Common.Int.{ℤ, pos, negsuc}
use rpi_stub.Util.Hex.{hex_to_nib, nib_to_hex}
use rpi_stub.Packet.Device.{IoDevice}

-- `GDB_MAX_MSG_LEN`
abbrev pub max_msg_len : ℕ
max_msg_len = 1024

-- the payload's loop: `checksum += *src; checksum &= 0xff`
unfoldable pub checksum : Bytes → ℕ → ℕ
checksum [] sum = sum
checksum (c ∷ src) sum = checksum src (bit_and (sum + c) 0xff)

-- the frame round a payload with the two digits of its sum; `none` where a digit fails
unfoldable pub framed : Option ℕ → Option ℕ → Bytes → Option Bytes
framed none lo payload = none
framed (some hi) none payload = none
framed (some hi) (some lo) payload =
    if hi == 0
    then none
    else if lo == 0
    then none
    else some (b'$' ∷ (payload ++ b'#' ∷ hi ∷ lo ∷ []))

-- what `gdb_send_packet` builds in `gdb_out_packet`
unfoldable pub out_packet : Bytes → Option Bytes
unfolding checksum framed
out_packet payload =
    let sum = checksum payload 0 in
    framed (nib_to_hex (pos (bit_and sum 0xf0 / 16))) (nib_to_hex (pos (bit_and sum 0x0f))) payload

-- What a call leaves: its result and the device, or no return at all within the rounds it has.
pub data Sent (S : Type 0) : Type 0 where
  sent : ℤ → S → Sent S
  sending : S → Sent S

module _ {S : Type 0} (device : IoDevice S) where
  -- `while (wbc < cnt)`, with the rounds left: what is left is written from `out + wbc` on
  unfoldable pub send_loop : ℕ → Bytes → ℕ → ℕ → S → Sent S
  send_loop zero out wbc cnt s = if ltb wbc cnt then sending s else sent (pos cnt) s
  send_loop (suc rounds) out wbc cnt s =
      let (n, t) = device.write (take (cnt - wbc) (drop wbc out)) s in
      let again = send_loop rounds out n (cnt - wbc) t in
      if ltb wbc cnt then again else sent (pos cnt) s

  -- `gdb_send_packet`
  unfoldable pub send_packet : ℕ → Bytes → S → Sent S
  unfolding send_loop out_packet
  send_packet rounds payload s =
      if ltb (max_msg_len - 4) (length payload)
      then sent (negsuc 0) s
      else elim (out_packet payload) [
        | none ↦ sent (negsuc 0) s
        | some out ↦
            let (wbc, t) = device.write out s in send_loop rounds out wbc (length payload + 4) t
      ]

-- What a call of `receive_packet` leaves: its result, the bytes in the buffer and the device; or no
-- return within its rounds; or a read of the buffer behind what was received.
pub data Received (S : Type 0) : Type 0 where
  received : ℤ → Bytes → S → Received S
  waiting : S → Received S
  astray : Received S

-- How the wait for `$` ends: a payload follows, a `-` or a `#` came, or the rounds ran out.
pub data Start (S : Type 0) : Type 0 where
  dollar : S → Start S
  nack : S → Start S
  broken : S → Start S
  no_start : S → Start S

-- The payload as it is read: the bytes so far, `curr` as the number of bytes behind it, and the sum.
pub record Payload : Type 0 where
  pub text : Bytes
  pub curr : ℕ
  pub sum : ℕ

-- the loop that finishes the check: up to a `#`, from `curr` on
unfoldable pub finish : Bytes → ℕ → Option ℕ
finish [] sum = none
finish (c ∷ rest) sum = if c == b'#' then some sum else finish rest ((sum + c) % 256)

-- a step of the check where nothing was read
abbrev pub check_one : Payload → Payload
check_one p =
    if ltb p.curr (length p.text)
    then record p { curr = p.curr + 1; sum = (p.sum + get_or p.text p.curr 0) % 256 }
    else p

-- what a round of the payload's loop does to the check, given what it read
unfoldable pub checked : Bytes → Payload → Payload
checked [] p = check_one p
checked (c ∷ got) p = p

-- `*(dst - 1)`; before the first byte it is the byte `outside` in front of the buffer
unfoldable pub last_or : ℕ → Bytes → ℕ
last_or outside [] = outside
last_or outside (c ∷ rest) = last_or c rest

abbrev pub hash : ℕ
hash = b'#'

module _ {S : Type 0} (device : IoDevice S) where
  -- a round of the wait for `$`, given the character and the rounds behind it; the text "+" that a
  -- round with `+` puts into `dst` is left out
  unfoldable pub on_start : Option ℕ → Start S → S → Start S
  on_start none again t = again
  on_start (some c) again t =
      if c == b'$'
      then dollar t
      else if c == b'-'
      then nack t
      else if c == b'#'
      then broken t
      else again

  -- `while ((ch = get_char()) != '$')`
  unfoldable pub await_start : ℕ → S → Start S
  unfolding on_start
  await_start zero s = no_start s
  await_start (suc rounds) s =
      let (ch, t) = device.get_char s in on_start ch (await_start rounds t) t

  abbrev pub ended : Option ℕ → Bytes → S → Received S
  ended none text t = astray
  ended (some sum) text t = received (pos sum) text t

  -- the loop that reads the payload; the result is the sum, the bytes and the device
  unfoldable pub read_payload : ℕ → ℕ → Payload → S → Received S
  unfolding finish last_or checked
  read_payload zero outside p s = waiting s
  read_payload (suc rounds) outside p s =
      let (got, t) = device.get_string b'#' (max_msg_len - 1 - length p.text) s in
      let q = checked got p in
      let text = q.text ++ got in
      let again = read_payload rounds outside (record q { text = text }) t in
      if last_or outside text == hash then ended (finish (drop q.curr text) q.sum) text t else again

  abbrev pub got_char : Option ℕ → S → Option ℕ × S → Option ℕ × S
  got_char none t again = again
  got_char (some c) t again = (some c, t)

  -- `while ((ch = get_char()) == -1)`
  unfoldable pub await_char : ℕ → S → Option ℕ × S
  await_char zero s = (none, s)
  await_char (suc rounds) s = let (ch, t) = device.get_char s in got_char ch t (await_char rounds t)

  -- the result, given the sum that was worked out (none of a broken packet) and the two nibbles
  unfoldable pub judge : Option ℕ → ℕ → ℕ → ℕ → ℤ
  judge none len hi lo = negsuc 1
  judge (some sum) len hi lo = if hi * 16 + lo == sum then pos len else negsuc 1

  -- a digit of the sum: still to come, no hex digit, or a nibble
  abbrev pub on_digit : Option (Option ℕ) → Bytes → S → (ℕ → Received S) → Received S
  on_digit none buff t next = waiting t
  on_digit (some none) buff t next = received (negsuc 3) buff t
  on_digit (some (some nib)) buff t next = next nib

  -- the two digits behind a payload with this sum
  unfoldable pub check_digits : ℕ → Option ℕ → ℕ → Bytes → S → Received S
  unfolding await_char judge
  check_digits rounds sum len buff s =
      let (ch1, t) = await_char rounds s in
      let (ch2, u) = await_char rounds t in
      on_digit (Option.map hex_to_nib ch1) buff t (λ hi.
        on_digit (Option.map hex_to_nib ch2) buff u (λ lo. received (judge sum len hi lo) buff u))

  -- what follows the payload: its `#` becomes a terminator, and an empty one has no digits read
  unfoldable pub after_payload : ℕ → Received S → Received S
  unfolding check_digits
  after_payload rounds (received (pos sum) text t) =
      let len = length text - 1 in
      let buff = take len text ++ 0 ∷ [] in
      if len == 0 then received (pos 0) buff t else check_digits rounds (some sum) len buff t
  after_payload rounds (received (negsuc n) text t) = received (negsuc n) text t
  after_payload rounds (waiting t) = waiting t
  after_payload rounds astray = astray

  -- what follows the wait for `$`
  unfoldable pub after_start : ℕ → ℕ → Start S → Received S
  unfolding read_payload check_digits after_payload
  after_start rounds outside (no_start t) = waiting t
  after_start rounds outside (nack t) = received (pos 1) (b'-' ∷ 0 ∷ []) t
  after_start rounds outside (broken t) = check_digits rounds none 1 [] t
  after_start rounds outside (dollar t) =
      after_payload rounds (read_payload rounds outside (record { text = []; curr = 0; sum = 0 }) t)

  -- `receive_packet`
  unfoldable pub receive_packet : ℕ → ℕ → S → Received S
  unfolding await_start after_start
  receive_packet rounds outside s = after_start rounds outside (await_start rounds s)
