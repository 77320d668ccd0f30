-- ===== src/Stub/Breakpoints/Valid.antt =====
-- The table's count is right after every operation, and the results say what was done.
use rpi_stub.Common.{
  ℕ, suc, ◌+◌, ◌-◌, ◌<◌, ◌≡◌, ◌≢◌, refl, ◌⊎◌, ◌&&◌, Bool, true, false, none, some, length, get_or,
  arith, Option-cases, inl, inr, ◌==◌, Bool-cases,
}
use rpi_stub.Stub.Memory.{load32, store32}
use rpi_stub.Stub.Breakpoints.{
  TrapRec, Breakpoints, Search, found, wrong_kind, missing, max_breakpoints, place, remove,
  set_trap, unset_trap, check_breakpoint, clear_breakpoints,
}
use rpi_stub.Stub.Breakpoints.Table.{
  used, used-le, place-used, place-full, Removed, removed, remove-Removed, used-clear_all, no_trap,
  find_user-place, find_user-clear_all,
}

-- The table has its 64 slots, and `gdb_num_bkpts` counts those in use.
pub record IsValid (s : Breakpoints) : Type 0 where
  pub size : length s.usr_breakpoint ≡ max_breakpoints
  pub counted : s.num_bkpts ≡ used s.usr_breakpoint

-- On a valid state `dgb_set_trap` succeeds exactly if fewer than 64 breakpoints are set; then it
-- counts one more, and else it returns 1 and changes nothing. The state stays valid, and the
-- result 3, "something wrong with the table", never comes.
pub set_trap-IsValid :
    (address kind : ℕ) {s : Breakpoints}
    → IsValid s
    → IsValid (set_trap address kind s).1
      × (((s.num_bkpts ≡ max_breakpoints) × (set_trap address kind s ≡ (1, s)))
          ⊎ ((s.num_bkpts < max_breakpoints)
              × ((set_trap address kind s).0 ≡ 0)
              × ((set_trap address kind s).1.num_bkpts ≡ s.num_bkpts + 1)))
unfolding set_trap
set_trap-IsValid address kind {s} v = elim (Bool-cases (s.num_bkpts == max_breakpoints)) [
  | inl full ↦ simp full (v, inl (ground arith, refl))
  | inr room ↦ elim (Option-cases (place new s.usr_breakpoint)) [
    | inl e ↦ absurd (ground (arith, place-full new s.usr_breakpoint e))
    | inr (us, e) ↦
        let (more, same) = place-used new s.usr_breakpoint refl e in
        simp (room, e)
          (
            record { size = omega arith; counted = omega arith },
            inr (ground (arith, used-le s.usr_breakpoint), refl, refl),
          )
  ]
]
  where
    new : TrapRec
    new = record {
      trap_address = address;
      instruction = load32 s.memory address;
      trap_kind = kind;
      valid = true;
    }

-- what a search gives, as the result and the new state
unfoldable pub applied : ℕ → Breakpoints → Search → ℕ × Breakpoints
applied address s (found table v) = (
  0,
  record s {
    usr_breakpoint = table;
    num_bkpts = s.num_bkpts - 1;
    memory = store32 s.memory address v;
  },
)
applied address s wrong_kind = (2, s)
applied address s missing = (3, s)

abbrev Outcome : Breakpoints → ℕ × Breakpoints → Type 0
Outcome s r =
    IsValid r.1 × (((r.0 ≡ 0) × (suc r.1.num_bkpts ≡ s.num_bkpts)) ⊎ ((r.0 ≢ 0) × (r.1 ≡ s)))

applied-Outcome :
    (address : ℕ) (s : Breakpoints) (r : Search)
    → IsValid s
    → Removed s.usr_breakpoint r
    → Outcome s (applied address s r)
unfolding applied
applied-Outcome address s (found us x) v (removed fewer same) =
    (record { size = omega arith; counted = omega arith }, inl (refl, omega arith))
applied-Outcome address s wrong_kind v r = (v, inr (omega arith, refl))
applied-Outcome address s missing v r = (v, inr (omega arith, refl))

pub unset_trap-applied :
    (address kind : ℕ) (s : Breakpoints)
    → s.num_bkpts ≢ 0
    → unset_trap address kind s ≡ applied address s (remove address kind s.usr_breakpoint)
unfolding unset_trap applied
unset_trap-applied address kind s ne = ground arith

-- `dgb_unset_trap` keeps the state valid. Its result is 0 where it counts one less, and with any
-- other result the state is unchanged.
pub unset_trap-IsValid :
    (address kind : ℕ) {s : Breakpoints}
    → IsValid s
    → IsValid (unset_trap address kind s).1
      × ((((unset_trap address kind s).0 ≡ 0)
            × (suc (unset_trap address kind s).1.num_bkpts ≡ s.num_bkpts))
          ⊎ (((unset_trap address kind s).0 ≢ 0) × ((unset_trap address kind s).1 ≡ s)))
unset_trap-IsValid address kind {s} v = elim (Bool-cases (s.num_bkpts == 0)) [
  | inl e ↦ unfold unset_trap in simp e (v, inr (omega arith, refl))
  | inr e ↦
      rw (unset_trap-applied address kind s (ground arith))
        (applied-Outcome address s _ v (remove-Removed address kind s.usr_breakpoint))
]

-- On a valid state with less than 64 breakpoints, after a breakpoint is set, the check of a stop
-- at its address finds the stepping breakpoint, which is then in use and stands at that address, or
-- the number of a valid record of that address.
pub check_breakpoint-set_trap :
    (address kind : ℕ) {s : Breakpoints}
    → IsValid s
    → s.num_bkpts < max_breakpoints
    → let t = (set_trap address kind s).1 in
      ((check_breakpoint address t ≡ some max_breakpoints)
        × (t.step_bkpt.valid ≡ true)
        × (t.step_bkpt.trap_address ≡ address))
      ⊎ ((n : ℕ) × (check_breakpoint address t ≡ some n)
          × (n < max_breakpoints)
          × ((get_or t.usr_breakpoint n no_trap).trap_address ≡ address)
          × ((get_or t.usr_breakpoint n no_trap).valid ≡ true))
unfolding set_trap check_breakpoint
check_breakpoint-set_trap address kind {s} v room =
    elim (Option-cases (place new s.usr_breakpoint)) [
      | inl e ↦ absurd (ground (arith, place-full new s.usr_breakpoint e))
      | inr (us, e) ↦
          let (n, hit, inside, at, valid) = find_user-place new s.usr_breakpoint refl e in
          let (more, same) = place-used new s.usr_breakpoint refl e in
          let ne : (s.num_bkpts == max_breakpoints) ≡ false = ground arith in
          elim (Bool-cases (s.step_bkpt.valid && (s.step_bkpt.trap_address == address))) [
            | inl step ↦ simp (ne, e, step) (inl (refl, ground arith, ground arith))
            | inr step ↦ simp (ne, e, step) (inr (n, hit, omega arith, at, valid))
          ]
    ]
  where
    new : TrapRec
    new = record {
      trap_address = address;
      instruction = load32 s.memory address;
      trap_kind = kind;
      valid = true;
    }

-- On a valid state, `gdb_clear_breakpoints` leaves a valid state with no breakpoint: no address is
-- found, whether the traps are removed from the memory or not.
pub clear_breakpoints-IsValid :
    (remove_traps : Bool) (pc : ℕ) {s : Breakpoints}
    → IsValid s
    → IsValid (clear_breakpoints remove_traps s)
      × ((clear_breakpoints remove_traps s).num_bkpts ≡ 0)
      × (check_breakpoint pc (clear_breakpoints remove_traps s) ≡ none)
unfolding clear_breakpoints check_breakpoint
clear_breakpoints-IsValid remove_traps pc {s} v =
    let (none_used, same) = used-clear_all s.usr_breakpoint in
    (
      record { size = omega arith; counted = omega arith },
      refl,
      find_user-clear_all pc s.usr_breakpoint 0,
    )
