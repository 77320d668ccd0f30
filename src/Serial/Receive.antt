-- ===== src/Serial/Receive.antt =====
-- What `serial_rx` does with the words of the receive FIFO.
use rpi_stub.Common.{
  ℕ, suc, ◌+◌, ◌<◌, ◌≡◌, ◌≢◌, refl, ap, ◌∙◌, sym, Bool, true, false, List, [], ◌∷◌, ◌++◌, Bytes,
  ◌==◌, ◌&&◌, if◌then◌else◌, get_or, bit_and, length, append_assoc, append-nil, arith, Bool-cases,
  inl, inr,
}
use rpi_stub.Serial.Uart.{
  RxFifo, Serial, buff_size, is_full, push, count_overrun, is_break, on_break, drop_word, rx_loop,
  serial_rx,
}
use rpi_stub.Serial.Ring.{
  used, contents, IsRing, push-IsRing, used-push, contents-push, is_full_iff, not_full,
  not_full_at_zero, contents-push_lost,
}

-- the low bytes of the words that are no Ctrl-C for the handler, and how many are one
abbrev pub breaks : Bool → ℕ → Bool
breaks on ch = (bit_and ch 0xff == 3) && on

unfoldable pub kept : Bool → List ℕ → Bytes
kept on [] = []
kept on (ch ∷ chs) = if breaks on ch then kept on chs else bit_and ch 0xff ∷ kept on chs

pub interrupts : Bool → List ℕ → ℕ
interrupts on [] = 0
interrupts on (ch ∷ chs) = (if breaks on ch then 1 else 0) + interrupts on chs

abbrev Taken : List ℕ → Serial → Serial → Type 0
Taken chs s t =
    IsRing t.rx
    × (contents t.rx ≡ contents s.rx ++ kept s.handle_ctrlc chs)
    × (t.traps ≡ interrupts s.handle_ctrlc chs + s.traps)
    × (t.rx_dropped_count ≡ s.rx_dropped_count)
    × (t.tx ≡ s.tx)

rx_loop-Taken :
    (chs : List ℕ) (s : Serial)
    → IsRing s.rx
    → used s.rx + length chs < buff_size
    → Taken chs s (rx_loop chs s)
unfolding rx_loop kept interrupts
rx_loop-Taken [] s v h = (v, sym (append-nil (contents s.rx)), omega arith, refl, refl)
rx_loop-Taken (ch ∷ chs) s v h =
    let room : suc (used s.rx) < buff_size = omega arith in
    elim (Bool-cases (is_break ch s)) [
      | inl yes_break ↦
          simp (not_full v room, yes_break)
            (let (v', c, t, d, x) =
                rx_loop-Taken chs (on_break (count_overrun ch s)) v (omega arith) in
              (v', c, omega arith, d, x))
      | inr kept_it ↦
          simp (not_full v room, kept_it)
            (let (v', c, t, d, x) =
                rx_loop-Taken chs (record (count_overrun ch s) { rx = push (bit_and ch 0xff) s.rx })
                  (push-IsRing (bit_and ch 0xff) v)
                  (omega (arith, used-push (bit_and ch 0xff) v room)) in
              (
                v',
                c
                    ∙ ap (λ l. l ++ kept s.handle_ctrlc chs)
                        (contents-push (bit_and ch 0xff) v room)
                    ∙ append_assoc (contents s.rx) (bit_and ch 0xff ∷ []) (kept s.handle_ctrlc chs),
                omega arith,
                d,
                x,
              ))
    ]

-- On a ring whose indices lie in the buffer, where it has less than 1023 characters and at most
-- 1023 with all the words of the FIFO, `serial_rx` puts their low bytes at its end, in order, and
-- drops none. Where the Ctrl-C handler is in use, the bytes 3 are left out, and each of them pends
-- a trap. The ring stays in order, and the transmit buffer is untouched.
pub serial_rx-contents :
    (f : RxFifo) (s : Serial)
    → IsRing s.rx
    → suc (used s.rx) < buff_size
    → used s.rx + length f.words < buff_size
    → IsRing (serial_rx f s).rx
      × (contents (serial_rx f s).rx ≡ contents s.rx ++ kept s.handle_ctrlc f.words)
      × ((serial_rx f s).traps ≡ interrupts s.handle_ctrlc f.words + s.traps)
      × ((serial_rx f s).rx_dropped_count ≡ s.rx_dropped_count)
      × ((serial_rx f s).tx ≡ s.tx)
unfolding serial_rx drop_word
serial_rx-contents f s v room h = simp (not_full v room) (rx_loop-Taken f.words s v h)

rx_loop_full : (chs : List ℕ) (s : Serial) → is_full s.rx ≡ true → rx_loop chs s ≡ s
unfolding rx_loop
rx_loop_full [] s h = refl
rx_loop_full (ch ∷ chs) s h = simp h refl

drop_word_full :
    (f : RxFifo) (s : Serial)
    → is_full s.rx ≡ true
    → ((drop_word f s).rx ≡ s.rx)
      × ((drop_word f s).rx_dropped_count ≡ (if f.full then 1 else 0) + s.rx_dropped_count)
unfolding drop_word
drop_word_full f s h = elim (Bool-cases f.full) [
  | inl e ↦ elim (Bool-cases (is_break (get_or f.words 0 0) s)) [
    | inl stop ↦ simp (h, e, stop) (refl, omega arith)
    | inr go ↦ simp (h, e, go) (refl, omega arith)
  ]
  | inr e ↦ simp (h, e) (refl, omega arith)
]

-- With 1023 characters in the buffer and its head not at 0, `serial_rx` stores nothing: it counts
-- a word as dropped if the FIFO is full too, and none else.
pub serial_rx_full :
    (f : RxFifo) (s : Serial)
    → IsRing s.rx
    → suc (used s.rx) ≡ buff_size
    → s.rx.head ≢ 0
    → ((serial_rx f s).rx ≡ s.rx)
      × ((serial_rx f s).rx_dropped_count ≡ (if f.full then 1 else 0) + s.rx_dropped_count)
unfolding serial_rx
serial_rx_full f s v h ne =
    let full = (is_full_iff v).1 (h, ne) in
    let (same, count) = drop_word_full f s full in
    let still : is_full (drop_word f s).rx ≡ true = ap is_full same ∙ full in
    let step : serial_rx f s ≡ drop_word f s = rx_loop_full _ (drop_word f s) still in
    rw step (same, count)

-- With 1023 characters in the buffer and its head at 0, the next word, where it is no Ctrl-C for
-- the handler, is stored, no word is counted as dropped, and the buffer then reads as empty: all
-- 1024 characters are lost.
pub serial_rx_lost :
    (ch : ℕ) (s : Serial)
    → IsRing s.rx
    → suc (used s.rx) ≡ buff_size
    → s.rx.head ≡ 0
    → is_break ch s ≡ false
    → (contents (serial_rx (record { full = false; words = ch ∷ [] }) s).rx ≡ [])
      × ((serial_rx (record { full = false; words = ch ∷ [] }) s).rx_dropped_count
          ≡ s.rx_dropped_count)
unfolding serial_rx drop_word rx_loop
serial_rx_lost ch s v h at_zero no_break =
    simp (not_full_at_zero s.rx at_zero, no_break)
      (contents-push_lost (bit_and ch 0xff) v h at_zero, refl)

rx_loop-masked : (chs : List ℕ) (s : Serial) → (rx_loop chs s).masked ≡ s.masked
unfolding rx_loop
rx_loop-masked [] s = refl
rx_loop-masked (ch ∷ chs) s = elim (Bool-cases (is_full s.rx)) [
  | inl e ↦ simp e refl
  | inr e ↦ elim (Bool-cases (is_break ch s)) [
    | inl stop ↦ simp (e, stop) (rx_loop-masked chs (on_break (count_overrun ch s)))
    | inr go ↦
        simp (e, go)
          (rx_loop-masked chs (record (count_overrun ch s) { rx = push (bit_and ch 0xff) s.rx }))
  ]
]

drop_word-masked : (f : RxFifo) (s : Serial) → (drop_word f s).masked ≡ s.masked
unfolding drop_word
drop_word-masked f s = elim (Bool-cases (is_full s.rx && f.full)) [
  | inl e ↦ elim (Bool-cases (is_break (get_or f.words 0 0) s)) [
    | inl stop ↦ simp (e, stop) refl
    | inr go ↦ simp (e, go) refl
  ]
  | inr e ↦ simp e refl
]

pub serial_rx-masked : (f : RxFifo) (s : Serial) → (serial_rx f s).masked ≡ s.masked
unfolding serial_rx
serial_rx-masked f s = rx_loop-masked _ (drop_word f s) ∙ drop_word-masked f s
