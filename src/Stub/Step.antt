-- ===== src/Stub/Step.antt =====
-- Stops and single steps (gdb.c): why the debuggee stopped (`gdb_trap_handler`), what was pending
-- until then (`gdb_handle_pending_state`), and the step to the next instruction
-- (`gdb_do_single_step`). An answer is kept as what it says; its packet's text is left out, and so
-- is what `gdb_monitor` does behind `gdb_handle_pending_state`.
pub mod Restore
mod Tests
use rpi_stub.Common.{
  ℕ, zero, suc, ◌+◌, ◌-◌, ◌%◌, ◌^◌, Bool, true, false, Option, none, some, List, [], ◌∷◌, ◌++◌,
  ◌==◌, ◌&&◌, ◌||◌, not, ltb, if◌then◌else◌, Bytes, bit_and, get_or,
}
use rpi_stub.Util.Hex.{hex_to_word}
use rpi_stub.Instr.Next.{NextAddr, Registers, next_address, addr_undef, addr_unpred, addr_thumb}
use rpi_stub.Stub.Memory.{Memory, load32, store32, store16}
use rpi_stub.Stub.Breakpoints.{
  TrapRec, Breakpoints, max_breakpoints, trap_arm, trap_thumb, cleared, poke_trap, check_breakpoint,
}

-- `SIG_INT`, `SIG_ILL`, `SIG_TRAP`, `SIG_EMT`, `SIG_BUS`, `SIG_USR1`, `SIG_USR2`, `ALOHA`, `PANIC`
abbrev pub sig_int : ℕ
sig_int = 2

abbrev pub sig_ill : ℕ
sig_ill = 4

abbrev pub sig_trap : ℕ
sig_trap = 5

abbrev pub sig_emt : ℕ
sig_emt = 7

abbrev pub sig_bus : ℕ
sig_bus = 10

abbrev pub sig_usr1 : ℕ
sig_usr1 = 30

abbrev pub sig_usr2 : ℕ
sig_usr2 = 31

abbrev pub aloha : ℕ
aloha = 32

abbrev pub panic : ℕ
panic = 34

-- What is sent to the client: `OK`, an error's number, or that the debuggee stopped for a reason.
pub data Answer : Type 0 where
  ok : Answer
  error : ℕ → Answer
  halted : ℕ → Answer

-- The variables of gdb.c that stops and steps use; `none` is the -1 of `gdb_trap_num` and of
-- `gdb_resuming`. The flag of a ctrl-C is kept in rpi2.c.
pub record Monitor : Type 0 where
  pub table : Breakpoints
  pub regs : Registers
  pub stepping_address : ℕ
  pub trap_num : Option ℕ
  pub resuming : Option ℕ
  pub running : Bool
  pub sigint_flag : ℕ
  pub answers : List Answer

-- `exception_info`, `exception_extra` and the reason that rpi2.c keeps for a ctrl-C
pub record Exception : Type 0 where
  pub info : ℕ
  pub extra : ℕ
  pub exc_reason : ℕ

-- `gdb_single_stepping_address` where no address is asked for
abbrev pub no_address : ℕ
no_address = 0xffffffff

abbrev pub answer_with : Answer → Monitor → Monitor
answer_with a s = record s { answers = s.answers ++ a ∷ [] }

-- the ends of `gdb_do_single_step` that stay in the monitor
abbrev pub stop_stepping : Answer → Monitor → Monitor
stop_stepping a s = record s {
  table = record s.table { single_stepping = false };
  stepping_address = no_address;
  answers = s.answers ++ a ∷ [];
  running = true;
}

-- the end of it that runs on to a trap
abbrev pub step_record : ℕ → Memory → TrapRec
step_record address m = record {
  trap_address = address;
  instruction = load32 m address;
  trap_kind = trap_arm;
  valid = true;
}

abbrev pub plant : ℕ → Monitor → Monitor
plant address s = record s {
  table = record s.table {
    step_bkpt = step_record address s.table.memory;
    memory = poke_trap s.table.memory address trap_arm;
  };
  running = false;
}

-- `gdb_restore_breakpoint`
unfoldable pub restore_breakpoint : TrapRec → Memory → Memory
restore_breakpoint t m =
    if t.trap_kind == trap_arm
    then store32 m t.trap_address t.instruction
    else store16 m t.trap_address (t.instruction % 2 ^ 16)

-- `gdb_resp_target_halted`
abbrev pub target_halted : ℕ → Monitor → Monitor
target_halted reason s = record s { running = true; answers = s.answers ++ halted reason ∷ [] }

-- the end of `gdb_handle_pending_state`: a ctrl-C in the monitor gets no answer
unfoldable pub report : ℕ → Monitor → Monitor
report reason s = if (reason == sig_int) && s.running then s else target_halted reason s

-- the trap of the breakpoint that was stepped over is set again
unfoldable pub reapply : ℕ → Monitor → Monitor
unfolding poke_trap
reapply n s =
    let t = get_or s.table.usr_breakpoint n (cleared s.table.step_bkpt) in
    record s {
      table = record s.table { memory = poke_trap s.table.memory t.trap_address t.trap_kind };
      resuming = none;
    }

-- a used step breakpoint is taken out of the memory
unfoldable pub take_step : Monitor → Monitor
unfolding restore_breakpoint
take_step s = record s {
  table = record s.table {
    memory = restore_breakpoint s.table.step_bkpt s.table.memory;
    step_bkpt = record s.table.step_bkpt { valid = false };
  };
  running = true;
}

-- a resumed breakpoint ends the call, and else the stop is reported
unfoldable pub resume_or_report : Option ℕ → Monitor → Monitor
unfolding reapply report
resume_or_report none s = report sig_trap s
resume_or_report (some n) s = reapply n s

abbrev pub is_step : Option ℕ → Bool
is_step none = false
is_step (some n) = n == max_breakpoints

-- the reason that `gdb_trap_handler` works out where a breakpoint was looked for
abbrev pub trap_reason : Option ℕ → ℕ
trap_reason none = sig_usr2
trap_reason (some n) = sig_trap

-- its `switch` over the exception, with the breakpoint at the stored PC
unfoldable pub exception_reason : Option ℕ → Exception → ℕ
exception_reason found e =
    if e.info == 8
    then aloha
    else if e.info == 0
    then panic
    else if e.info == 3
    then if (e.extra == 1) || (e.extra == 2)
      then trap_reason found
      else if e.extra == 4
      then sig_usr2
      else if e.extra == 15
      then aloha
      else sig_bus
    else if e.info == 4
    then if e.extra == 6 then sig_trap else sig_emt
    else if e.info == 1
    then sig_ill
    else if e.info == 2
    then sig_usr2
    else if e.info == 5
    then sig_usr2
    else if e.info == 6
    then sig_usr1
    else if e.info == 7
    then sig_usr1
    else panic

module _ (decode : ℕ → NextAddr) where
  -- `gdb_do_single_step`
  unfoldable pub do_single_step : Monitor → Monitor
  unfolding next_address poke_trap
  do_single_step s =
      let curr = s.regs.r15 in
      let next = next_address decode s.regs s.table.memory curr in
      if not (s.stepping_address == no_address) && (s.stepping_address == curr)
      then stop_stepping ok s
      else if bit_and next.flag (2 ^ 32 - 1 - addr_unpred) == addr_undef
      then stop_stepping (error 1) s
      else if not (bit_and next.flag addr_unpred == 0)
      then stop_stepping (error 1) s
      else if bit_and next.flag 3 == addr_thumb
      then answer_with (error 2) s
      else plant next.address s

  -- `gdb_cmd_single_step`, with the packet behind its `s`
  unfoldable pub cmd_single_step : Bytes → ℕ → Monitor → Monitor
  unfolding do_single_step
  cmd_single_step packet packet_len s =
      if ltb 1 packet_len
      then if s.stepping_address == no_address
        then do_single_step (record s { stepping_address = hex_to_word packet })
        else answer_with (error 2) s
      else do_single_step (record s { stepping_address = no_address })

  -- the part of `gdb_handle_pending_state` behind a step breakpoint
  unfoldable pub stepped : Monitor → Monitor
  unfolding do_single_step take_step resume_or_report
  stepped s =
      let t = take_step s in
      if t.stepping_address == no_address
      then resume_or_report t.resuming t
      else if t.stepping_address == t.regs.r15
      then resume_or_report t.resuming (record t { stepping_address = no_address })
      else do_single_step t

  -- `gdb_handle_pending_state`
  unfoldable pub handle_pending_state : ℕ → Monitor → Monitor
  unfolding stepped report
  handle_pending_state reason s =
      if reason == sig_trap
      then if is_step s.trap_num then stepped s else report reason (record s { running = true })
      else report reason s

  -- `gdb_trap_handler`, with the start of `gdb_monitor`
  unfoldable pub trap_handler : Exception → Monitor → Monitor
  unfolding exception_reason handle_pending_state check_breakpoint
  trap_handler e s =
      let found = check_breakpoint s.regs.r15 s.table in
      let looked = (e.info == 3) && ((e.extra == 1) || (e.extra == 2)) in
      if s.sigint_flag == 1
      then handle_pending_state e.exc_reason (record s { trap_num = none; sigint_flag = 0 })
      else if ltb 0xff00 e.extra
      then handle_pending_state panic (record s { trap_num = none })
      else handle_pending_state (exception_reason found e)
          (record s { trap_num = if looked then found else none })
