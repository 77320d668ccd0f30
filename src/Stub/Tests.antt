-- ===== src/Stub/Tests.antt =====
-- The breakpoint and watchpoint tables at concrete states.
use rpi_stub.Common.{
  ℕ, ◌+◌, ◌%◌, ◌^◌, ◌≤◌, ◌<◌, ◌≡◌, ◌↔◌, refl, ◌⊎◌, inl, inr, true, false, none, some, [], ◌∷◌,
  get_or, replicate, arith,
}
use rpi_stub.Common.Int.{pos, negsuc}
use rpi_stub.Stub.Breakpoints.{
  Breakpoints, max_breakpoints, set_trap, unset_trap, check_breakpoint, clear_breakpoints,
}
use rpi_stub.Stub.Breakpoints.Table.{no_trap}
use rpi_stub.Stub.Breakpoints.Valid as BreakpointsValid
use rpi_stub.Stub.Breakpoints.Valid.{
  set_trap-IsValid, unset_trap-IsValid, check_breakpoint-set_trap, clear_breakpoints-IsValid,
}
use rpi_stub.Stub.Breakpoints.Original.{covered, original, traps, original-set_trap}
use rpi_stub.Stub.Breakpoints.Original.Unset.{original-unset_trap}
use rpi_stub.Stub.Breakpoints.Original.Clear.{clear_breakpoints-original}
use rpi_stub.Stub.Watchpoints.{
  WatchRange, Watchpoints, no_watch, claimed, armed, max_watchpoints, matches, watch_range, hits,
  add_watchpoint,
}
use rpi_stub.Stub.Watchpoints.Range.{hits_bytes, hits_bytes_crossing}
use rpi_stub.Stub.Watchpoints.Valid as WatchpointsValid
use rpi_stub.Stub.Watchpoints.Valid.{add_watchpoint-IsValid, del_watchpoint-IsValid}

abbrev start : Breakpoints
start = record {
  usr_breakpoint = replicate 64 no_trap;
  num_bkpts = 0;
  step_bkpt = no_trap;
  single_stepping = false;
  memory = λ q. q % 256;
}

start-IsValid : BreakpointsValid.IsValid start
start-IsValid = record { size = refl; counted = refl }

-- with a breakpoint at 0x8000
abbrev one : Breakpoints
one = record start {
  usr_breakpoint =
      record { trap_address = 0x8000; instruction = 0x3020100; trap_kind = 1; valid = true }
      ∷ replicate 63 no_trap;
  num_bkpts = 1;
}

one-IsValid : BreakpointsValid.IsValid one
one-IsValid = record { size = refl; counted = refl }

check_breakpoint-set_trap_example :
    ((check_breakpoint 0x8004 (set_trap 0x8004 1 one).1 ≡ some max_breakpoints)
      × ((set_trap 0x8004 1 one).1.step_bkpt.valid ≡ true)
      × ((set_trap 0x8004 1 one).1.step_bkpt.trap_address ≡ 0x8004))
    ⊎ ((n : ℕ) × (check_breakpoint 0x8004 (set_trap 0x8004 1 one).1 ≡ some n)
        × (n < max_breakpoints)
        × ((get_or (set_trap 0x8004 1 one).1.usr_breakpoint n no_trap).trap_address ≡ 0x8004)
        × ((get_or (set_trap 0x8004 1 one).1.usr_breakpoint n no_trap).valid ≡ true))
check_breakpoint-set_trap_example = check_breakpoint-set_trap 0x8004 1 one-IsValid (omega arith)

uncovered : (q : ℕ) → covered (traps start) q ≡ none
unfolding covered
uncovered q = refl

original-set_trap_example : original (set_trap 0x8000 1 start).1 0x8002 ≡ original start 0x8002
original-set_trap_example =
    original-set_trap 0x8000 1 0x8002 start-IsValid (omega arith) (λ q. omega arith)
      (λ q. inr (uncovered q))

unset_done :
    ((unset_trap 0x8000 1 one).0 ≡ 0)
    × ((q : ℕ) → covered (traps (unset_trap 0x8000 1 one).1) q ≡ none)
unfolding unset_trap covered
unset_done = (refl, λ q. refl)

original-unset_trap_example : original (unset_trap 0x8000 1 one).1 0x8002 ≡ original one 0x8002
original-unset_trap_example =
    original-unset_trap 0x8000 1 one 0x8002 (unset_done.0) (λ q. inr (unset_done.1 q))

abbrev two : Breakpoints
two = record one { usr_breakpoint = get_or one.usr_breakpoint 0 no_trap ∷ no_trap ∷ [] }

nothing_behind : (q : ℕ) → covered (no_trap ∷ []) q ≡ none
unfolding covered
nothing_behind q = refl

clear_breakpoints-original_example :
    (clear_breakpoints true two).memory 0x8001 ≡ original two 0x8001
clear_breakpoints-original_example =
    clear_breakpoints-original two 0x8001 ((λ q. inr (nothing_behind q)), ((λ q. inl refl), tt))

hits_bytes_example :
    (r : WatchRange) × (watch_range 0x9004 4 ≡ some r)
    × ((hits 0x9006 (armed r (claimed 2 0x9004 4 no_watch)) ≡ true)
        ↔ ((0x9004 ≤ 0x9006) × (0x9006 < 0x9004 + 4)))
    × (r.bas < 2 ^ 8)
hits_bytes_example =
    hits_bytes 2 0x9004 4 0x9006 no_watch (omega arith) (omega arith) (omega arith) (omega arith)

hits_bytes_crossing_example :
    (r : WatchRange) × (watch_range 0x9006 4 ≡ some r)
    × (hits 0x9008 (armed r (claimed 2 0x9006 4 no_watch)) ≡ false)
    × (2 ^ 8 ≤ r.bas)
hits_bytes_crossing_example =
    hits_bytes_crossing 2 0x9006 4 0x9008 no_watch (omega arith) (omega arith) (omega arith)
      (omega arith) (omega arith)

abbrev watching : Watchpoints
watching = record {
  usr_watchpoint = replicate 4 no_watch;
  num_watchps = 0;
  hw = record { wvr = λ n. 0; wcr = λ n. 0; dscr = 0 };
}

watching-IsValid : WatchpointsValid.IsValid watching
unfolding WatchpointsValid.used
watching-IsValid = record { size = refl; counted = refl }

add_watchpoint-IsValid_example :
    WatchpointsValid.IsValid (add_watchpoint 2 0x9004 4 watching).1
    × (((num : ℕ) × ((add_watchpoint 2 0x9004 4 watching).0 ≡ pos num)
          × (num < max_watchpoints)
          × ((get_or watching.usr_watchpoint num no_watch).valid ≡ false)
          × (matches 2 0x9004 4
                (get_or (add_watchpoint 2 0x9004 4 watching).1.usr_watchpoint num no_watch)
              ≡ true)
          × ((add_watchpoint 2 0x9004 4 watching).1.num_watchps ≡ watching.num_watchps + 1))
        ⊎ ((n : ℕ) × ((add_watchpoint 2 0x9004 4 watching).0 ≡ negsuc n)
            × ((add_watchpoint 2 0x9004 4 watching).1.num_watchps ≡ watching.num_watchps)
            × ((add_watchpoint 2 0x9004 4 watching).1.hw ≡ watching.hw)))
add_watchpoint-IsValid_example = add_watchpoint-IsValid 2 0x9004 4 watching-IsValid
