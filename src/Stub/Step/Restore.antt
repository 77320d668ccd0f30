-- ===== src/Stub/Step/Restore.antt =====
-- A single step leaves the debuggee's memory as the debuggee left it.
use rpi_stub.Common.{
  ℕ, ◌<◌, ◌≡◌, ◌≢◌, ◌⊎◌, ◌&&◌, All, length, get_or, refl, true, false, none, some, [], ◌∷◌, ◌++◌,
  ◌==◌, if◌then◌else◌, ==-refl, Bool-cases, Option-cases, inl, inr, arith,
}
use rpi_stub.Instr.Next.{NextAddr, next_address, addr_arm}
use rpi_stub.Stub.Memory.{Memory, IsMemory, within, store}
use rpi_stub.Stub.Breakpoints.{max_breakpoints, trap_arm, check_breakpoint, find_user}
use rpi_stub.Stub.Breakpoints.Table.{no_trap, find_user_sound, find_user_complete}
use rpi_stub.Stub.Breakpoints.Original.{loaded}
use rpi_stub.Stub.Step.{
  halted, Exception, Monitor, no_address, sig_trap, plant, step_record, do_single_step,
  restore_breakpoint, take_step, stepped, resume_or_report, report, handle_pending_state,
  exception_reason, trap_handler,
}

-- The step breakpoint's stop: a breakpoint exception at an address, where the memory may have
-- changed since.
abbrev pub stopped_at : ℕ → ℕ → Memory → Monitor → Monitor
stopped_at address cpsr m s = record s {
  regs = record { r15 = address; cpsr = cpsr };
  table = record s.table { memory = m };
}

abbrev pub breakpoint_exception : ℕ → Exception
breakpoint_exception reason = record { info = 3; extra = trap_arm; exc_reason = reason }

-- what the stop leaves of a step to an address
abbrev after_step : ℕ → ℕ → Memory → Monitor → Monitor
after_step address cpsr m s = report sig_trap (
    take_step
      (record (stopped_at address cpsr m (plant address s)) { trap_num = some max_breakpoints }))

-- where the instruction at the stored PC leads
abbrev pub next : (ℕ → NextAddr) → Monitor → NextAddr
next decode s = next_address decode s.regs s.table.memory s.regs.r15

module _ (decode : ℕ → NextAddr) (s : Monitor) (no_target : s.stepping_address ≡ no_address) where
  do_single_step-plant :
      (next decode s).flag ≡ addr_arm → do_single_step decode s ≡ plant (next decode s).address s
  unfolding do_single_step
  do_single_step-plant arm = rw (no_target, arm)

  trap_handler-step :
      (address cpsr reason : ℕ) (m : Memory)
      → s.sigint_flag ≢ 1
      → s.resuming ≡ none
      → trap_handler decode
          (breakpoint_exception reason)
          (stopped_at address cpsr m (plant address s))
        ≡ after_step address cpsr m s
  unfolding trap_handler check_breakpoint exception_reason handle_pending_state stepped
      resume_or_report
  trap_handler-step address cpsr reason m no_sigint fresh =
      let flag : (s.sigint_flag == 1) ≡ false = ground arith in
      rw (==-refl address, flag, no_target, fresh)

restore_breakpoint-step_record :
    (address : ℕ) (m₀ m : Memory) (q : ℕ)
    → IsMemory m₀
    → restore_breakpoint (step_record address m₀) m q ≡ (if within address 4 q then m₀ q else m q)
unfolding restore_breakpoint store
restore_breakpoint-step_record address m₀ m q h = elim (Bool-cases (within address 4 q)) [
  | inl e ↦ ground (arith, loaded m₀ address q h e)
  | inr e ↦ ground arith
]

module _ (decode : ℕ → NextAddr) (s : Monitor) (no_target : s.stepping_address ≡ no_address) where
  -- Where no target address is asked for, a single step to an instruction that the decoder knows
  -- as ARM lets the debuggee run, and the stop at that instruction puts back what the step's trap
  -- covers: where the debuggee has made `m` of the memory of bytes in between, the memory is `m`
  -- outside the trap's word, and in it what it was before the step. The step breakpoint is no
  -- longer in use, the user's breakpoints are untouched, and the client is told of the stop. A
  -- ctrl-C and a breakpoint to be resumed are excluded.
  pub do_single_step-restores :
      (cpsr reason q : ℕ) (m : Memory)
      → (next decode s).flag ≡ addr_arm
      → IsMemory s.table.memory
      → s.sigint_flag ≢ 1
      → s.resuming ≡ none
      → let address = (next decode s).address in
        let t = do_single_step decode s in
        let u = trap_handler decode (breakpoint_exception reason) (stopped_at address cpsr m t) in
        (t.running ≡ false)
        × (u.table.memory q ≡ (if within address 4 q then s.table.memory q else m q))
        × (u.table.step_bkpt.valid ≡ false)
        × (u.table.usr_breakpoint ≡ s.table.usr_breakpoint)
        × (u.running ≡ true)
        × (u.answers ≡ s.answers ++ halted sig_trap ∷ [])
  unfolding take_step report
  do_single_step-restores cpsr reason q m arm hm no_sigint fresh =
      let address = (next decode s).address in
      let e = do_single_step-plant decode s no_target arm in
      let f = trap_handler-step decode s no_target address cpsr reason m no_sigint fresh in
      rw (e, f)
        (refl, restore_breakpoint-step_record address s.table.memory m q hm, refl, refl, refl, refl)

-- A breakpoint exception at an address where the step breakpoint is not set, with a table of 64
-- records: where a valid record has the address, the client is told of signal 5 (SIGTRAP), and where
-- none has, of signal 31 (SIGUSR2). The tables and the memory stay as they are, and the monitor runs.
-- A ctrl-C is excluded.
pub trap_handler-breakpoint :
    (decode : ℕ → NextAddr) (s : Monitor) (reason : ℕ)
    → s.sigint_flag ≢ 1
    → length s.table.usr_breakpoint ≡ max_breakpoints
    → (s.table.step_bkpt.valid ≡ false) ⊎ (s.table.step_bkpt.trap_address ≢ s.regs.r15)
    → let u = trap_handler decode (breakpoint_exception reason) s in
      (((n : ℕ) × (n < max_breakpoints)
          × ((get_or s.table.usr_breakpoint n no_trap).trap_address ≡ s.regs.r15)
          × ((get_or s.table.usr_breakpoint n no_trap).valid ≡ true)
          × (u.answers ≡ s.answers ++ halted 5 ∷ []))
        ⊎ (All (λ t. (t.trap_address ≢ s.regs.r15) ⊎ (t.valid ≡ false)) s.table.usr_breakpoint
            × (u.answers ≡ s.answers ++ halted 31 ∷ [])))
      × (u.table ≡ s.table)
      × (u.running ≡ true)
unfolding trap_handler exception_reason handle_pending_state report check_breakpoint
trap_handler-breakpoint decode s reason no_sigint size no_step =
    let flag : (s.sigint_flag == 1) ≡ false = ground arith in
    let step : (s.table.step_bkpt.valid && (s.table.step_bkpt.trap_address == s.regs.r15)) ≡ false =
      ground arith in
    elim (Option-cases (find_user s.regs.r15 s.table.usr_breakpoint 0)) [
      | inl e ↦
          let none_there = find_user_complete s.regs.r15 s.table.usr_breakpoint 0 e in
          simp (flag, step, e) (inr (none_there, refl), refl, refl)
      | inr (k, e) ↦
          let (n, at, inside, address, valid) =
            find_user_sound s.regs.r15 s.table.usr_breakpoint 0 k e in
          let user : (k == max_breakpoints) ≡ false = ground arith in
          simp (flag, step, e, user) (inl (n, omega arith, address, valid, refl), refl, refl)
    ]
