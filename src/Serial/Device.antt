-- ===== src/Serial/Device.antt =====
-- The driver as the device of the packets (`serial_init` fills in `io_device`): what it has received,
-- it gives in order.
use rpi_stub.Common.{
  ℕ, ◌≡◌, ap, ◌∙◌, sym, false, some, [], ◌∷◌, Bytes, length, drop, until, Bool-cases, inl, inr,
  arith,
}
use rpi_stub.Packet.Device.{IoDevice, Receives}
use rpi_stub.Serial.Uart.{Serial, is_empty, pop}
use rpi_stub.Serial.Api.{get_char, get_string, serial_write, wait_rx}
use rpi_stub.Serial.Ring.{contents, IsRing, pop-IsRing, contents-pop}
use rpi_stub.Serial.Stream.{contents_empty, serial_poll_off, get_string-until}

abbrev pub serial_device : IoDevice Serial
serial_device = record { get_char = get_char; get_string = get_string; write = serial_write }

-- Interrupts are on, so that the poll does nothing, and these characters are in the buffer.
pub record Ready (s : Serial) (bs : Bytes) : Type 0 where
  pub ring : IsRing s.rx
  pub unmasked : s.masked ≡ false
  pub holds : contents s.rx ≡ bs

cons-parts : {a b : ℕ} {xs bs : Bytes} → a ∷ xs ≡ b ∷ bs → (a ≡ b) × (xs ≡ bs)
cons-parts e = (ap (λ l. head_or l) e, ap (λ l. drop 1 l) e)
  where
    head_or : Bytes → ℕ
    head_or [] = 0
    head_or (x ∷ l) = x

get_char-first :
    {s : Serial} (b : ℕ) {bs : Bytes}
    → Ready s (b ∷ bs)
    → (t : Serial) × (get_char s ≡ (some b, t)) × Ready t bs
unfolding get_char wait_rx
get_char-first {s} b {bs} r = elim (Bool-cases (is_empty s.rx)) [
  | inl e ↦ absurd (ground (arith, contents_empty r.ring e, r.holds))
  | inr e ↦
      let t = record s { rx = pop s.rx } in
      let (first, rest) = cons-parts (sym (contents-pop r.ring e) ∙ r.holds) in
      (
        t,
        simp (e, serial_poll_off t r.unmasked) (ap (λ c. (some c, t)) first),
        record { ring = pop-IsRing r.ring; unmasked = r.unmasked; holds = rest },
      )
]

get_string-Ready :
    {s : Serial} (delim n : ℕ) {bs : Bytes}
    → Ready s bs
    → (t : Serial) × (get_string delim n s ≡ (until delim n bs, t))
      × Ready t (drop (length (until delim n bs)) bs)
get_string-Ready {s} delim n {bs} r =
    let t = (get_string delim n s).1 in
    let (got, v, off, c) = get_string-until delim n s r.ring r.unmasked in
    (
      t,
      ap (λ g. (g, t)) (got ∙ ap (λ l. until delim n l) r.holds),
      record {
        ring = v;
        unmasked = off;
        holds = c ∙ ap (λ l. drop (length (until delim n l)) l) r.holds;
      },
    )

-- The serial driver gives what it has received, in order, through `serial_get_char` and
-- `serial_get_string`.
pub serial_device-Receives : Receives serial_device Ready
serial_device-Receives = record {
  get_char-first = λ b r. get_char-first b r;
  get_string-until = λ delim n r. get_string-Ready delim n r;
}
