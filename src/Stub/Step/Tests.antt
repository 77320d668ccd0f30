-- ===== src/Stub/Step/Tests.antt =====
-- Single steps and stops at concrete states.
use rpi_stub.Common.{
  ℕ, ◌<◌, ◌≢◌, ◌⊎◌, inl, All, get_or, ◌%◌, ◌≡◌, refl, true, false, none, [], ◌∷◌, ◌++◌, replicate,
  if◌then◌else◌, arith,
}
use rpi_stub.Instr.Next.{NextAddr, next_address, next_address_arm, arm_addr, linear}
use rpi_stub.Stub.Memory.{within}
use rpi_stub.Stub.Breakpoints.{max_breakpoints}
use rpi_stub.Stub.Breakpoints.Table.{no_trap}
use rpi_stub.Stub.Step.{Monitor, no_address, halted, sig_trap, do_single_step, trap_handler}
use rpi_stub.Stub.Step.Restore.{
  next, stopped_at, breakpoint_exception, do_single_step-restores, trap_handler-breakpoint,
}

abbrev goes_on : ℕ → NextAddr
goes_on instr = arm_addr linear

-- stopped at 0x8000, where a breakpoint is set
abbrev at_breakpoint : Monitor
at_breakpoint = record {
  table = record {
    usr_breakpoint =
        record { trap_address = 0x8000; instruction = 0x3020100; trap_kind = 1; valid = true }
        ∷ replicate 63 no_trap;
    num_bkpts = 1;
    step_bkpt = no_trap;
    single_stepping = false;
    memory = λ q. q % 256;
  };
  regs = record { r15 = 0x8000; cpsr = 0x13 };
  stepping_address = no_address;
  trap_num = none;
  resuming = none;
  running = true;
  sigint_flag = 0;
  answers = [];
}

next_known : (next goes_on at_breakpoint).flag ≡ 2
unfolding next_address next_address_arm
next_known = refl

do_single_step-restores_example :
    let address = (next goes_on at_breakpoint).address in
    let t = do_single_step goes_on at_breakpoint in
    let u = trap_handler goes_on (breakpoint_exception 0) (stopped_at address 0x13 (λ q. 7) t) in
    (t.running ≡ false)
    × (u.table.memory 0x8006 ≡ (if within address 4 0x8006 then 0x8006 % 256 else 7))
    × (u.table.step_bkpt.valid ≡ false)
    × (u.table.usr_breakpoint ≡ at_breakpoint.table.usr_breakpoint)
    × (u.running ≡ true)
    × (u.answers ≡ [] ++ halted sig_trap ∷ [])
do_single_step-restores_example =
    do_single_step-restores goes_on at_breakpoint refl 0x13 0 0x8006 (λ q. 7) next_known
      (λ q. omega arith) (omega arith) refl

trap_handler-breakpoint_example :
    let u = trap_handler goes_on (breakpoint_exception 0) at_breakpoint in
    (((n : ℕ) × (n < max_breakpoints)
        × ((get_or at_breakpoint.table.usr_breakpoint n no_trap).trap_address ≡ 0x8000)
        × ((get_or at_breakpoint.table.usr_breakpoint n no_trap).valid ≡ true)
        × (u.answers ≡ [] ++ halted 5 ∷ []))
      ⊎ (All (λ t. (t.trap_address ≢ 0x8000) ⊎ (t.valid ≡ false)) at_breakpoint.table.usr_breakpoint
          × (u.answers ≡ [] ++ halted 31 ∷ [])))
    × (u.table ≡ at_breakpoint.table)
    × (u.running ≡ true)
trap_handler-breakpoint_example =
    trap_handler-breakpoint goes_on at_breakpoint 0 (omega arith) refl (inl refl)
