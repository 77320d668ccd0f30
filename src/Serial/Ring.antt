-- ===== src/Serial/Ring.antt =====
-- A ring buffer of serial.c as a queue: its contents, and what a store and a fetch do to them.
use rpi_stub.Common.{
  ℕ, zero, suc, ◌+◌, ◌-◌, ◌%◌, ◌<◌, ◌≡◌, ◌≢◌, ◌↔◌, refl, ap, ap₂, ◌∙◌, true, false, [], ◌∷◌, ◌++◌,
  Bytes, ltb, if◌then◌else◌, get_or, set, length, length-set, get_or-set_self, get_or-set_ne, arith,
}
use rpi_stub.Serial.Uart.{Ring, Serial, buff_size, is_full, is_empty, push, front, pop}
use rpi_stub.Serial.Api.{rx_used, tx_free}

-- how many characters are in the buffer
unfoldable pub used : Ring → ℕ
used r = if ltb r.tail r.head then r.tail + buff_size - r.head else r.tail - r.head

-- `n` characters from index `i` on, round the end
unfoldable pub window : Bytes → ℕ → ℕ → Bytes
window buff i zero = []
window buff i (suc n) = get_or buff i 0 ∷ window buff ((i + 1) % buff_size) n

-- the characters in the buffer, the oldest first
abbrev pub contents : Ring → Bytes
contents r = window r.buff r.head (used r)

pub record IsRing (r : Ring) : Type 0 where
  pub size : length r.buff ≡ buff_size
  pub head_lt : r.head < buff_size
  pub tail_lt : r.tail < buff_size

length-window : (buff : Bytes) (i n : ℕ) → length (window buff i n) ≡ n
unfolding window
length-window buff i zero = refl
length-window buff i (suc n) = omega (arith, length-window buff ((i + 1) % buff_size) n)

pub length-contents : (r : Ring) → length (contents r) ≡ used r
length-contents r = length-window r.buff r.head (used r)

-- A store right behind a window makes it longer by the character.
window-set :
    (buff : Bytes) (c n i k : ℕ)
    → length buff ≡ buff_size
    → suc n < buff_size
    → i < buff_size
    → k ≡ (i + n) % buff_size
    → window (set buff k c) i (suc n) ≡ window buff i n ++ c ∷ []
unfolding window
window-set buff c zero i k size hn hi at =
    let here : k ≡ i = omega arith in
    rw here (ap (λ x. x ∷ []) (get_or-set_self buff i c 0 (omega arith)))
window-set buff c (suc n) i k size hn hi at =
    ap₂ (λ x l. x ∷ l) (get_or-set_ne buff k i c 0 (omega arith))
      (window-set buff c n ((i + 1) % buff_size) k size (omega arith) (omega arith) (omega arith))

pub used_lt : {r : Ring} → IsRing r → used r < buff_size
unfolding used
used_lt v = ground (arith, v.head_lt, v.tail_lt)

pub push-IsRing : (c : ℕ) {r : Ring} → IsRing r → IsRing (push c r)
unfolding push
push-IsRing c {r} v = record {
  size = length-set r.buff r.tail c ∙ v.size;
  head_lt = v.head_lt;
  tail_lt = omega arith;
}

pub pop-IsRing : {r : Ring} → IsRing r → IsRing (pop r)
unfolding pop
pop-IsRing v = record { size = v.size; head_lt = omega arith; tail_lt = v.tail_lt }

pub used-push :
    (c : ℕ) {r : Ring} → IsRing r → suc (used r) < buff_size → used (push c r) ≡ suc (used r)
unfolding used push
used-push c v h = ground (arith, v.head_lt, v.tail_lt)

pub used-pop : {r : Ring} → IsRing r → is_empty r ≡ false → used r ≡ suc (used (pop r))
unfolding used pop
used-pop v h = ground (arith, v.head_lt, v.tail_lt)

pub is_empty-used : {r : Ring} → IsRing r → is_empty r ≡ true → used r ≡ 0
unfolding used
is_empty-used v h = ground arith

-- With room for one more, a store puts the character at the end.
pub contents-push :
    (c : ℕ) {r : Ring}
    → IsRing r
    → suc (used r) < buff_size
    → contents (push c r) ≡ contents r ++ c ∷ []
contents-push c {r} v h =
    let at : r.tail ≡ (r.head + used r) % buff_size =
      unfold used in ground (arith, v.head_lt, v.tail_lt) in
    rw (used-push c v h)
      (unfold push in window-set r.buff c (used r) r.head r.tail v.size h v.head_lt at)

pub contents-pop :
    {r : Ring} → IsRing r → is_empty r ≡ false → contents r ≡ front r ∷ contents (pop r)
contents-pop {r} v h = rw (used-pop v h) (unfold pop window in refl)

-- The test for a full buffer holds of a buffer with 1023 characters, unless its head is 0.
pub is_full_iff :
    {r : Ring} → IsRing r → (is_full r ≡ true) ↔ ((suc (used r) ≡ buff_size) × (r.head ≢ 0))
unfolding used
is_full_iff v = ground (arith, v.head_lt, v.tail_lt)

pub not_full : {r : Ring} → IsRing r → suc (used r) < buff_size → is_full r ≡ false
unfolding used
not_full v h = ground (arith, v.head_lt, v.tail_lt)

pub not_full_at_zero : (r : Ring) → r.head ≡ 0 → is_full r ≡ false
not_full_at_zero r h = ground arith

-- The store that the test for a full buffer lets through makes the buffer read as empty.
pub contents-push_lost :
    (c : ℕ) {r : Ring} → IsRing r → suc (used r) ≡ buff_size → r.head ≡ 0 → contents (push c r) ≡ []
contents-push_lost c {r} v h at_zero =
    let none_used : used (push c r) ≡ 0 =
      unfold used push in ground (arith, v.head_lt, v.tail_lt) in
    rw none_used (unfold window in refl)

-- `serial_rx_used` is the number of characters in the receive buffer.
pub rx_used-contents : (s : Serial) → rx_used s ≡ length (contents s.rx)
unfolding rx_used
rx_used-contents s = rw (length-contents s.rx) (unfold used in refl)

-- On a ring whose indices lie in the buffer, `serial_tx_free` is the size of the transmit buffer
-- less the characters in it, and 0 for an empty buffer.
pub tx_free-contents :
    (s : Serial) → IsRing s.tx → tx_free s ≡ (buff_size - length (contents s.tx)) % buff_size
unfolding tx_free
tx_free-contents s v =
    rw (length-contents s.tx) (unfold used in ground (arith, v.head_lt, v.tail_lt))
