-- ===== src/Stub/Breakpoints.antt =====
-- Breakpoints (gdb.c): the table of user breakpoints, the single-stepping breakpoint, and the traps
-- that `rpi2_set_trap` (rpi2.c) pokes into the debuggee's memory. An address is a number; the cache
-- flushes and barriers behind each store have no counterpart.
pub mod Table
pub mod Valid
pub mod Original
use rpi_stub.Common.{
  ℕ, zero, suc, ◌+◌, ◌-◌, Bool, true, false, Option, none, some, List, [], ◌∷◌, ◌==◌, ◌&&◌, not,
  if◌then◌else◌,
}
use mathlib.Core.Option
use rpi_stub.Stub.Memory.{Memory, load32, store32, store16}

abbrev pub max_breakpoints : ℕ
max_breakpoints = 64

-- `RPI2_TRAP_ARM` and `RPI2_TRAP_THUMB`
abbrev pub trap_arm : ℕ
trap_arm = 1

abbrev pub trap_thumb : ℕ
trap_thumb = 2

-- `gdb_trap_rec`; `instruction` is the union's word.
pub record TrapRec : Type 0 where
  pub trap_address : ℕ
  pub instruction : ℕ
  pub trap_kind : ℕ
  pub valid : Bool

-- The variables of gdb.c that the breakpoint functions use, and the memory.
pub record Breakpoints : Type 0 where
  pub usr_breakpoint : List TrapRec
  pub num_bkpts : ℕ
  pub step_bkpt : TrapRec
  pub single_stepping : Bool
  pub memory : Memory

-- `rpi2_set_trap`
unfoldable pub poke_trap : Memory → ℕ → ℕ → Memory
poke_trap m address kind =
    if kind == trap_thumb then store16 m address 0xbebe else store32 m address 0xe127ff7f

-- the loop of `dgb_set_trap`: the record goes to the first slot that is free
unfoldable pub place : TrapRec → List TrapRec → Option (List TrapRec)
place new [] = none
place new (t ∷ ts) = if t.valid then Option.map (λ us. t ∷ us) (place new ts) else some (new ∷ ts)

-- `dgb_set_trap`
unfoldable pub set_trap : ℕ → ℕ → Breakpoints → ℕ × Breakpoints
unfolding place poke_trap
set_trap address kind s =
    if s.num_bkpts == max_breakpoints then (1, s) else elim (place new s.usr_breakpoint) [
      | none ↦ (3, s)
      | some table ↦ (
        0,
        record s {
          usr_breakpoint = table;
          num_bkpts = s.num_bkpts + 1;
          memory = poke_trap s.memory address kind;
        },
      )
    ]
  where
    new : TrapRec
    new = record {
      trap_address = address;
      instruction = load32 s.memory address;
      trap_kind = kind;
      valid = true;
    }

-- what the loop of `dgb_unset_trap` comes to
pub data Search : Type 0 where
  found : List TrapRec → ℕ → Search
  wrong_kind : Search
  missing : Search

abbrev pub behind : TrapRec → Search → Search
behind t (found ts v) = found (t ∷ ts) v
behind t wrong_kind = wrong_kind
behind t missing = missing

-- the loop of `dgb_unset_trap`: the first valid record of the address decides
unfoldable pub remove : ℕ → ℕ → List TrapRec → Search
remove address kind [] = missing
remove address kind (t ∷ ts) =
    if t.valid && (t.trap_address == address)
    then (if t.trap_kind == kind
        then found (record t { trap_address = 0xffffffff; valid = false } ∷ ts) t.instruction
        else wrong_kind)
    else behind t (remove address kind ts)

-- `dgb_unset_trap`
unfoldable pub unset_trap : ℕ → ℕ → Breakpoints → ℕ × Breakpoints
unfolding remove
unset_trap address kind s =
    if s.num_bkpts == 0 then (1, s) else elim (remove address kind s.usr_breakpoint) [
      | found table v ↦ (
        0,
        record s {
          usr_breakpoint = table;
          num_bkpts = s.num_bkpts - 1;
          memory = store32 s.memory address v;
        },
      )
      | wrong_kind ↦ (2, s)
      | missing ↦ (3, s)
    ]

-- the loop of `gdb_check_breakpoint` over the user breakpoints, from number `i` on
unfoldable pub find_user : ℕ → List TrapRec → ℕ → Option ℕ
find_user pc [] i = none
find_user pc (t ∷ ts) i =
    if (t.trap_address == pc) && t.valid then some i else find_user pc ts (i + 1)

-- `gdb_check_breakpoint` at the stored program counter; `none` is its -1
unfoldable pub check_breakpoint : ℕ → Breakpoints → Option ℕ
unfolding find_user
check_breakpoint pc s =
    if s.step_bkpt.valid && (s.step_bkpt.trap_address == pc)
    then some max_breakpoints
    else find_user pc s.usr_breakpoint 0

-- `*tmp = instruction` for a record that is in use
abbrev pub put_back : TrapRec → Memory → Memory
put_back t m = if t.valid then store32 m t.trap_address t.instruction else m

-- the loop of `gdb_clear_breakpoints` on the memory, where traps are removed
unfoldable pub put_back_all : List TrapRec → Memory → Memory
put_back_all [] m = m
put_back_all (t ∷ ts) m = put_back_all ts (put_back t m)

abbrev pub cleared : TrapRec → TrapRec
cleared t = record t { trap_address = 0xffffffff; instruction = 0; valid = false }

unfoldable pub clear_all : List TrapRec → List TrapRec
clear_all [] = []
clear_all (t ∷ ts) = cleared t ∷ clear_all ts

-- `gdb_clear_breakpoints`
unfoldable pub clear_breakpoints : Bool → Breakpoints → Breakpoints
unfolding put_back_all clear_all
clear_breakpoints remove_traps s = record {
  usr_breakpoint = clear_all s.usr_breakpoint;
  num_bkpts = 0;
  step_bkpt = cleared s.step_bkpt;
  single_stepping = false;
  memory =
      if remove_traps
      then put_back s.step_bkpt (put_back_all s.usr_breakpoint s.memory)
      else s.memory;
}
