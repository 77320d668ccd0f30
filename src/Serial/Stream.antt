-- ===== src/Serial/Stream.antt =====
-- What `serial_read` and `serial_get_string` take from the receive buffer, while interrupts fill it
-- and the poll does nothing.
use rpi_stub.Common.{
  ℕ, zero, suc, ◌-◌, ◌≤◌, ◌≡◌, refl, ap, true, false, [], ◌∷◌, Bytes, ◌==◌, length, take, drop,
  until, arith, Bool-cases, inl, inr,
}
use rpi_stub.Serial.Uart.{Ring, Serial, is_empty, pop, front, serial_poll}
use rpi_stub.Serial.Api.{wait_rx, string_loop, string_fuel, get_string, read_loop, serial_read}
use rpi_stub.Serial.Ring.{window, contents, IsRing, pop-IsRing, is_empty-used, contents-pop}

pub contents_empty : {r : Ring} → IsRing r → is_empty r ≡ true → contents r ≡ []
unfolding window
contents_empty v h = rw (is_empty-used v h) refl

pub serial_poll_off : (s : Serial) → s.masked ≡ false → serial_poll s ≡ s
unfolding serial_poll
serial_poll_off s h = simp h refl

abbrev Holds : Serial → Bytes → Type 0
Holds s bs = IsRing s.rx × (s.masked ≡ false) × (contents s.rx ≡ bs)

read_loop-take :
    (n : ℕ) (s : Serial)
    → IsRing s.rx
    → s.masked ≡ false
    → ((read_loop n s).0 ≡ take n (contents s.rx))
      × Holds (read_loop n s).1 (drop n (contents s.rx))
unfolding read_loop wait_rx
read_loop-take zero s v off = (refl, (v, off, refl))
read_loop-take (suc n) s v off = elim (Bool-cases (is_empty s.rx)) [
  | inl e ↦ simp (e, serial_poll_off s off, contents_empty v e) (refl, (v, off, refl))
  | inr e ↦
      let (got, rest) = read_loop-take n (record s { rx = pop s.rx }) (pop-IsRing v) off in
      simp (e, contents-pop v e) (ap (λ l. front s.rx ∷ l) got, rest)
]

-- While UART interrupts are on, so that the poll does nothing, `serial_read` takes the `n` oldest
-- characters, or all of them where there are fewer, in order, and leaves the rest, from a ring
-- whose indices lie in the buffer.
pub serial_read-take :
    (n : ℕ) (s : Serial)
    → IsRing s.rx
    → s.masked ≡ false
    → ((serial_read n s).0 ≡ take n (contents s.rx))
      × IsRing (serial_read n s).1.rx
      × (contents (serial_read n s).1.rx ≡ drop n (contents s.rx))
unfolding serial_read
serial_read-take n s v off = let (got, (v', o, c)) = read_loop-take n s v off in (got, v', c)

string_loop_empty :
    (f delim m tries : ℕ) (s : Serial)
    → s.masked ≡ false
    → is_empty s.rx ≡ true
    → string_loop f delim m tries s ≡ ([], s)
unfolding string_loop
string_loop_empty zero delim m tries s off e = refl
string_loop_empty (suc f) delim zero tries s off e = refl
string_loop_empty (suc f) delim (suc m) tries s off e =
    simp (e, serial_poll_off s off)
      (elim (Bool-cases (tries == 0)) [
        | inl last ↦ simp last refl
        | inr more ↦ simp more (string_loop_empty f delim (suc m) (tries - 1) s off e)
      ])

string_loop-until :
    (f delim m tries : ℕ) (s : Serial)
    → m ≤ f
    → IsRing s.rx
    → s.masked ≡ false
    → let (got, t) = string_loop f delim m tries s in
      let all = contents s.rx in
      (got ≡ until delim m all) × Holds t (drop (length (until delim m all)) all)
unfolding string_loop until
string_loop-until zero delim zero tries s h v off = (refl, (v, off, refl))
string_loop-until zero delim (suc m) tries s h v off = absurd (omega arith)
string_loop-until (suc f) delim zero tries s h v off = (refl, (v, off, refl))
string_loop-until (suc f) delim (suc m) tries s h v off = elim (Bool-cases (is_empty s.rx)) [
  | inl e ↦
      rw (string_loop_empty (suc f) delim (suc m) tries s off e, contents_empty v e)
        (refl, (v, off, refl))
  | inr e ↦ elim (Bool-cases (front s.rx == delim)) [
    | inl stop ↦ simp (e, contents-pop v e, stop) (refl, (pop-IsRing v, off, refl))
    | inr go ↦
        let t = record s { rx = pop s.rx } in
        let (got, rest) = string_loop-until f delim m 10 t (omega arith) (pop-IsRing v) off in
        simp (e, contents-pop v e, go, serial_poll_off t off) (ap (λ l. front s.rx ∷ l) got, rest)
  ]
]

-- While UART interrupts are on, so that the poll does nothing, `serial_get_string` takes the
-- oldest characters up to the delimiter and with it, at most `n`, in order, and leaves the rest,
-- from a ring whose indices lie in the buffer.
pub get_string-until :
    (delim n : ℕ) (s : Serial)
    → IsRing s.rx
    → s.masked ≡ false
    → let (got, t) = get_string delim n s in
      let all = contents s.rx in
      (got ≡ until delim n all)
      × IsRing t.rx
      × (t.masked ≡ false)
      × (contents t.rx ≡ drop (length (until delim n all)) all)
unfolding get_string
get_string-until delim n s v off =
    let (got, (v', o, c)) = string_loop-until (string_fuel n) delim n 5 s (omega arith) v off in
    (got, v', o, c)
