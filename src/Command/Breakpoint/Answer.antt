-- ===== src/Command/Breakpoint/Answer.antt =====
-- What the command Z0 answers and does (gdb.c).
use rpi_stub.Common.{
  ℕ, ◌+◌, ◌<◌, ◌≡◌, ◌≢◌, refl, ap, ◌∙◌, ◌⊎◌, inl, inr, true, Bool-cases, [], ◌∷◌, ◌++◌, Bytes, All,
  length, ◌==◌, arith,
}
use rpi_stub.Util.Hex.{hex_to_word}
use rpi_stub.Stub.Breakpoints.{Breakpoints, set_trap, trap_arm, max_breakpoints}
use rpi_stub.Stub.Breakpoints.Valid.{IsValid, set_trap-IsValid}
use rpi_stub.Command.Argument.Text.{IsArgument, argument-text}
use rpi_stub.Command.Memory.{ok_text}
use rpi_stub.Command.Breakpoint.{error_text, set_answer, add_at, add_breakpoint, skip_comma}

add_breakpoint-text :
    (s : Breakpoints) (address kind : Bytes) (packet_len : ℕ)
    → All (IsArgument b',') address
    → length address + 1 < 16
    → 0 < packet_len
    → add_breakpoint s (b',' ∷ (address ++ b',' ∷ kind)) packet_len
      ≡ add_at s (hex_to_word address, kind)
unfolding add_breakpoint skip_comma
add_breakpoint-text s address kind packet_len ha la h =
    ground arith ∙ ap (add_at s) (argument-text b',' address kind ha la)

add_at-set_answer :
    (s : Breakpoints) (addr : ℕ) (kind : Bytes)
    → (hex_to_word kind == 4) ≡ true
    → add_at s (addr, kind) ≡ set_answer (set_trap addr trap_arm s)
unfolding add_at
add_at-set_answer s addr kind e = rw e refl

set_answer_full : (s : Breakpoints) → set_answer (1, s) ≡ (s, error_text b'1')
unfolding set_answer
set_answer_full s = refl

set_answer_done : (n : ℕ) (s : Breakpoints) → n ≡ 0 → set_answer (n, s) ≡ (s, ok_text)
unfolding set_answer
set_answer_done n s e = rw e refl

-- Z0 with an address of fewer than fifteen characters, on a valid state, in a packet that is not
-- empty, is one of three: with a kind other than 4 it has the empty answer and changes nothing; with
-- 64 breakpoints set it answers `E01` and changes nothing; and otherwise it answers `OK`, the state is
-- what `dgb_set_trap` makes of it at that address, it is valid and counts one more.
pub add_breakpoint-set_trap :
    (s : Breakpoints) (address kind : Bytes) (packet_len : ℕ)
    → IsValid s
    → All (IsArgument b',') address
    → length address + 1 < 16
    → 0 < packet_len
    → let result = add_breakpoint s (b',' ∷ (address ++ b',' ∷ kind)) packet_len in
      let set = set_trap (hex_to_word address) trap_arm s in
      ((hex_to_word kind ≢ 4) × (result ≡ (s, [])))
      ⊎ (((hex_to_word kind ≡ 4)
            × (s.num_bkpts ≡ max_breakpoints)
            × (result ≡ (s, error_text b'1')))
          ⊎ ((hex_to_word kind ≡ 4)
              × (s.num_bkpts < max_breakpoints)
              × (result ≡ (set.1, ok_text))
              × IsValid set.1
              × (set.1.num_bkpts ≡ s.num_bkpts + 1)))
add_breakpoint-set_trap s address kind packet_len v ha la h =
    rw (add_breakpoint-text s address kind packet_len ha la h)
      (elim (Bool-cases (hex_to_word kind == 4)) [
        | inl e ↦
            let addr = hex_to_word address in
            let four : hex_to_word kind ≡ 4 = ground arith in
            let here = add_at-set_answer s addr kind e in
            let (valid, outcome) = set_trap-IsValid addr trap_arm v in
            elim outcome [
              | inl (full, same) ↦
                  inr (inl (four, full, here ∙ ap set_answer same ∙ set_answer_full s))
              | inr (room, done, more) ↦ inr (
                  inr (
                    four,
                    room,
                    here ∙ set_answer_done _ (set_trap addr trap_arm s).1 done,
                    valid,
                    more,
                  ))
            ]
        | inr e ↦ inl (ground arith, unfold add_at in rw e refl)
      ])
