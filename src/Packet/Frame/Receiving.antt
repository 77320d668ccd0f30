-- ===== src/Packet/Frame/Receiving.antt =====
-- What `receive_packet` makes of a frame, from a driver that has received it.
use rpi_stub.Common.{
  sym, ℕ, zero, suc, ◌+◌, ◌-◌, ◌*◌, ◌/◌, ◌%◌, ◌≤◌, ◌<◌, ◌≡◌, ◌≢◌, refl, ap, ◌∙◌, subst, true, false,
  some, [], ◌∷◌, ◌++◌, Bytes, ◌==◌, if◌then◌else◌, length, length-append, take, drop, until,
  append_assoc, All, arith,
}
use mathlib.Core.Option
use rpi_stub.Common.Int.{pos, negsuc}
use rpi_stub.Util.Hex.{hex_to_nib}
use rpi_stub.Util.Hex.RoundTrip.{digit, hex_to_nib-nib_to_hex}
use rpi_stub.Packet.Device.{IoDevice, Receives}
use rpi_stub.Packet.Frame.{
  max_msg_len, out_packet, received, dollar, Payload, checked, finish, last_or, hash, on_start,
  await_start, judge, after_start, read_payload, await_char, check_digits, after_payload,
  receive_packet,
}
use rpi_stub.Packet.Frame.Sending.{sum_of, frame, sum_of_lt, out_packet-frame}

abbrev pub NoHash : Bytes → Type 0
NoHash = All (λ c. c ≢ hash)

-- what may stand before a frame: no `$`, `-` or `#`
abbrev pub IsNoise : Bytes → Type 0
IsNoise = All (λ c. (c ≢ b'$') × (c ≢ b'-') × (c ≢ hash))

finish-sum_of :
    (bs rest : Bytes) (sum : ℕ)
    → NoHash bs
    → sum < 256
    → finish (bs ++ hash ∷ rest) sum ≡ some ((sum + sum_of bs) % 256)
unfolding finish sum_of
finish-sum_of [] rest sum h lt = ap some (omega arith)
finish-sum_of (c ∷ bs) rest sum h lt =
    let other : (c == b'#') ≡ false = ground (arith, h.0) in
    rw other (finish-sum_of bs rest ((sum + c) % 256) h.1 (omega arith) ∙ ap some (omega arith))

until-hash :
    (bs rest : Bytes) (n : ℕ)
    → NoHash bs
    → length bs < n
    → until hash n (bs ++ hash ∷ rest) ≡ bs ++ hash ∷ []
unfolding until
until-hash bs rest zero h lt = absurd (omega arith)
until-hash [] rest (suc n) h lt = refl
until-hash (c ∷ bs) rest (suc n) h lt =
    let other : (c == b'#') ≡ false = ground (arith, h.0) in
    rw other (ap (λ l. c ∷ l) (until-hash bs rest n h.1 (omega arith)))

drop-hash : (bs rest : Bytes) → drop (length (bs ++ hash ∷ [])) (bs ++ hash ∷ rest) ≡ rest
drop-hash [] rest = refl
drop-hash (c ∷ bs) rest = drop-hash bs rest

take-hash : (bs : Bytes) → take (length bs) (bs ++ hash ∷ []) ≡ bs
take-hash [] = refl
take-hash (c ∷ bs) = ap (λ l. c ∷ l) (take-hash bs)

last_or-hash : (bs : Bytes) (outside : ℕ) → last_or outside (bs ++ hash ∷ []) ≡ hash
unfolding last_or
last_or-hash [] outside = refl
last_or-hash (c ∷ bs) outside = last_or-hash bs c

abbrev start : Payload
start = record { text = []; curr = 0; sum = 0 }

checked-start : (got : Bytes) → checked got start ≡ start
unfolding checked
checked-start [] = refl
checked-start (c ∷ got) = refl

module _ {S : Type 0} (device : IoDevice S) {Ready : S → Bytes → Type 0}
    (works : Receives device Ready) where
  await_start-dollar :
      (rounds : ℕ) (noise rest : Bytes) (s : S)
      → IsNoise noise
      → length noise < rounds
      → Ready s (noise ++ b'$' ∷ rest)
      → (t : S) × (await_start device rounds s ≡ dollar t) × Ready t rest
  unfolding await_start on_start
  await_start-dollar zero noise rest s h lt ready = absurd (omega arith)
  await_start-dollar (suc rounds) [] rest s h lt ready =
      let (t, e, r) = works.get_char-first b'$' ready in (t, rw (e, await_start) refl, r)
  await_start-dollar (suc rounds) (c ∷ noise) rest s h lt ready =
      let (t, e, r) = works.get_char-first c ready in
      let (u, f, r') = await_start-dollar rounds noise rest t h.1 (omega arith) r in
      let n1 : (c == b'$') ≡ false = ground (arith, h.0.0) in
      let n2 : (c == b'-') ≡ false = ground (arith, h.0.1) in
      let n3 : (c == b'#') ≡ false = ground (arith, h.0.2) in
      (u, rw (e, await_start, n1, n2, n3) f, r')

  read_payload-hash :
      (rounds outside : ℕ) (bs rest : Bytes) (s : S)
      → NoHash bs
      → length bs < max_msg_len - 1
      → Ready s (bs ++ hash ∷ rest)
      → (t : S) × (read_payload device (suc rounds) outside start s
          ≡ received (pos (sum_of bs)) (bs ++ hash ∷ []) t)
        × Ready t rest
  unfolding read_payload
  read_payload-hash rounds outside bs rest s h lt ready =
      let (t, e, r) = works.get_string-until hash (max_msg_len - 1) ready in
      let u = until-hash bs rest (max_msg_len - 1) h lt in
      (
        t,
        rw
            (
              e,
              u,
              checked-start (bs ++ hash ∷ []),
              last_or-hash bs outside,
              finish-sum_of bs [] 0 h (omega arith),
            )
            (ap (λ n. received (pos n) (bs ++ hash ∷ []) t) (omega (arith, sum_of_lt bs))),
        subst (λ l. Ready t l) (ap (λ l. drop (length l) (bs ++ hash ∷ rest)) u ∙ drop-hash bs rest)
            r,
      )

  check_digits-two :
      (rounds v len c1 c2 hi lo : ℕ) (buff rest : Bytes) (s : S)
      → hex_to_nib c1 ≡ some hi
      → hex_to_nib c2 ≡ some lo
      → Ready s (c1 ∷ c2 ∷ rest)
      → (t : S) × (check_digits device (suc rounds) (some v) len buff s
          ≡ received (if hi * 16 + lo == v then pos len else negsuc 1) buff t)
        × Ready t rest
  unfolding check_digits await_char judge
  check_digits-two rounds v len c1 c2 hi lo buff rest s h1 h2 ready =
      let (t, e, r) = works.get_char-first c1 ready in
      let (u, f, r') = works.get_char-first c2 r in (u, rw (e, f, h1, h2), r')

  -- Behind bytes that are no `$`, `-` or `#`, a frame with a payload of 1 to 1022 bytes without `#`
  -- and with two hex digits behind it is received: the payload is in the buffer, with a terminator,
  -- and the result is its length where the digits are the sum of its bytes, and else -2. What follows
  -- the frame is left to the driver.
  pub receive_packet-frame :
      (rounds outside c1 c2 hi lo : ℕ) (noise payload rest : Bytes) (s : S)
      → IsNoise noise
      → NoHash payload
      → length noise < rounds
      → 0 < length payload
      → length payload < max_msg_len - 1
      → hex_to_nib c1 ≡ some hi
      → hex_to_nib c2 ≡ some lo
      → Ready s (noise ++ b'$' ∷ (payload ++ hash ∷ c1 ∷ c2 ∷ rest))
      → (t : S) × (receive_packet device rounds outside s
          ≡ received
              (if hi * 16 + lo == sum_of payload then pos (length payload) else negsuc 1)
              (payload ++ 0 ∷ [])
              t)
        × Ready t rest
  unfolding receive_packet after_start after_payload
  receive_packet-frame zero outside c1 c2 hi lo noise payload rest s hn hp lt some_bytes fits h1 h2
        ready =
      absurd (omega arith)
  receive_packet-frame (suc rounds) outside c1 c2 hi lo noise payload rest s hn hp lt some_bytes
        fits h1 h2 ready =
      let (t, e, r) =
        await_start-dollar (suc rounds) noise (payload ++ hash ∷ c1 ∷ c2 ∷ rest) s hn lt ready in
      let (u, f, r') = read_payload-hash rounds outside payload (c1 ∷ c2 ∷ rest) t hp fits r in
      let (w, g, r'') =
        check_digits-two rounds (sum_of payload) (length payload) c1 c2 hi lo (payload ++ 0 ∷ [])
          rest u h1 h2 r' in
      let len : length (payload ++ hash ∷ []) - 1 ≡ length payload =
        omega (arith, length-append payload (hash ∷ [])) in
      let not_empty : (length payload == 0) ≡ false = ground arith in
      (w, rw (e, f, len, not_empty, take-hash payload) g, r'')

  -- A payload of 1 to 1020 bytes without `#` comes back whole from the frame that `gdb_send_packet`
  -- makes of it, behind bytes that are no `$`, `-` or `#`, and what follows is left to the driver.
  pub receive_packet-out_packet :
      (rounds outside : ℕ) (noise payload out rest : Bytes) (s : S)
      → IsNoise noise
      → NoHash payload
      → length noise < rounds
      → 0 < length payload
      → length payload ≤ max_msg_len - 4
      → out_packet payload ≡ some out
      → Ready s (noise ++ (out ++ rest))
      → (t : S) × (receive_packet device rounds outside s
          ≡ received (pos (length payload)) (payload ++ 0 ∷ []) t)
        × Ready t rest
  unfolding frame
  receive_packet-out_packet rounds outside noise payload out rest s hn hp lt some_bytes fits sends
        ready =
      let framed : out ≡ frame payload =
        ap (λ o. Option.get_or o []) (sym sends ∙ out_packet-frame payload) in
      let lt' = sum_of_lt payload in
      let hi = sum_of payload / 16 in
      let lo = sum_of payload % 16 in
      let line =
        ap (λ l. l ++ rest) framed
        ∙ ap (λ l. b'$' ∷ l) (append_assoc payload (hash ∷ digit hi ∷ digit lo ∷ []) rest) in
      let (t, e, r) =
        receive_packet-frame rounds outside (digit hi) (digit lo) hi lo noise payload rest s hn hp
          lt some_bytes (omega arith) (hex_to_nib-nib_to_hex hi (omega arith))
          (hex_to_nib-nib_to_hex lo (omega arith)) (subst (λ l. Ready s (noise ++ l)) line ready) in
      let same : (hi * 16 + lo == sum_of payload) ≡ true = ground arith in
      (t, e ∙ simp same refl, r)
