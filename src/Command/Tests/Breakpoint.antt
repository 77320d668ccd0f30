-- ===== src/Command/Tests/Breakpoint.antt =====
-- The command Z0 on an empty table (gdb.c).
use rpi_stub.Common.{
  ◌+◌, ◌<◌, ◌≡◌, ◌≢◌, refl, ◌⊎◌, false, [], ◌∷◌, ◌++◌, Bytes, All, replicate, arith,
}
use rpi_stub.Util.Hex.{hex_to_word}
use rpi_stub.Stub.Breakpoints.{TrapRec, Breakpoints, set_trap, trap_arm, max_breakpoints}
use rpi_stub.Stub.Breakpoints.Valid.{IsValid}
use rpi_stub.Command.Argument.Text.{IsArgument}
use rpi_stub.Command.Memory.{ok_text}
use rpi_stub.Command.Breakpoint.{error_text, add_breakpoint}
use rpi_stub.Command.Breakpoint.Answer.{add_breakpoint-set_trap}

abbrev unused_slot : TrapRec
unused_slot = record { trap_address = 0; instruction = 0; trap_kind = 0; valid = false }

abbrev nothing_set : Breakpoints
nothing_set = record {
  usr_breakpoint = replicate 64 unused_slot;
  num_bkpts = 0;
  step_bkpt = unused_slot;
  single_stepping = false;
  memory = λ q. 0;
}

nothing_set-IsValid : IsValid nothing_set
nothing_set-IsValid = record { size = refl; counted = refl }

-- the arguments `8f` and `4`
abbrev at_text : Bytes
at_text = b'8' ∷ b'f' ∷ []

abbrev kind_text : Bytes
kind_text = b'4' ∷ []

at_text-IsArgument : All (IsArgument b',') at_text
at_text-IsArgument = ((omega arith, omega arith), ((omega arith, omega arith), tt))

add_breakpoint-set_trap_example :
    let result = add_breakpoint nothing_set (b',' ∷ (at_text ++ b',' ∷ kind_text)) 5 in
    let set = set_trap (hex_to_word at_text) trap_arm nothing_set in
    ((hex_to_word kind_text ≢ 4) × (result ≡ (nothing_set, [])))
    ⊎ (((hex_to_word kind_text ≡ 4)
          × (nothing_set.num_bkpts ≡ max_breakpoints)
          × (result ≡ (nothing_set, error_text b'1')))
        ⊎ ((hex_to_word kind_text ≡ 4)
            × (nothing_set.num_bkpts < max_breakpoints)
            × (result ≡ (set.1, ok_text))
            × IsValid set.1
            × (set.1.num_bkpts ≡ nothing_set.num_bkpts + 1)))
add_breakpoint-set_trap_example =
    add_breakpoint-set_trap nothing_set at_text kind_text 5 nothing_set-IsValid at_text-IsArgument
      (omega arith) (omega arith)
