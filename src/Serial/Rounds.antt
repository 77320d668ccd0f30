-- ===== src/Serial/Rounds.antt =====
-- The rounds of `serial_get_string` are enough, whatever the UART does in between.
use rpi_stub.Common.{
  ℕ, zero, suc, ◌+◌, ◌-◌, ◌*◌, ◌≤◌, ◌≡◌, refl, ap, ◌==◌, ◌∷◌, Bool-cases, inl, inr, arith,
}
use rpi_stub.Serial.Uart.{Serial, is_empty, front, pop, serial_poll}
use rpi_stub.Serial.Api.{string_loop, string_fuel, get_string}

string_loop_more :
    (f g delim m tries : ℕ) (s : Serial)
    → f ≤ g
    → 11 * m + tries ≤ f + 10
    → string_loop g delim m tries s ≡ string_loop f delim m tries s
unfolding string_loop
string_loop_more zero zero delim m tries s le h = refl
string_loop_more zero (suc g) delim zero tries s le h = refl
string_loop_more zero (suc g) delim (suc m) tries s le h = absurd (omega arith)
string_loop_more (suc f) zero delim m tries s le h = absurd (omega arith)
string_loop_more (suc f) (suc g) delim zero tries s le h = refl
string_loop_more (suc f) (suc g) delim (suc m) tries s le h = elim (Bool-cases (is_empty s.rx)) [
  | inl e ↦ elim (Bool-cases (tries == 0)) [
    | inl last ↦ simp (e, last) refl
    | inr more ↦
        simp (e, more)
          (string_loop_more f g delim (suc m) (tries - 1) (serial_poll s) (omega arith)
            (ground arith))
  ]
  | inr e ↦ elim (Bool-cases (front s.rx == delim)) [
    | inl stop ↦ simp (e, stop) refl
    | inr go ↦
        simp (e, go)
          (ap (λ r. (front s.rx ∷ r.0, r.1))
            (string_loop_more f g delim m 10 (serial_poll (record s { rx = pop s.rx }))
              (omega arith) (omega arith)))
  ]
]

-- More rounds change nothing: whatever state the driver is in and whatever the UART does, the loop of
-- `serial_get_string` is at its end before its rounds are.
pub get_string-rounds :
    (k delim n : ℕ) (s : Serial)
    → string_loop (string_fuel n + k) delim n 5 s ≡ get_string delim n s
unfolding get_string
get_string-rounds k delim n s =
    string_loop_more (string_fuel n) (string_fuel n + k) delim n 5 s (omega arith) (omega arith)
