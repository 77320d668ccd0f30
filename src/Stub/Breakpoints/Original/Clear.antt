-- ===== src/Stub/Breakpoints/Original/Clear.antt =====
-- Clearing all breakpoints puts the debuggee's program back into the memory.
use rpi_stub.Common.{ℕ, ◌≡◌, refl, ◌⊎◌, true, none, List, [], ◌∷◌, arith}
use mathlib.Core.Option
use rpi_stub.Stub.Memory.{Memory, store}
use rpi_stub.Stub.Breakpoints.{TrapRec, Breakpoints, put_back, put_back_all, clear_breakpoints}
use rpi_stub.Stub.Breakpoints.Original.{byte_in, covered, original}

-- No record keeps a byte that one behind it keeps too.
abbrev pub Apart : List TrapRec → Type 0
Apart [] = Unit
Apart (t ∷ ts) = ((q : ℕ) → (byte_in t q ≡ none) ⊎ (covered ts q ≡ none)) × Apart ts

put_back_lem :
    (t : TrapRec) (m : Memory) (q : ℕ) → put_back t m q ≡ Option.get_or (byte_in t q) (m q)
unfolding store
put_back_lem t m q = ground arith

put_back_all-covered :
    (ts : List TrapRec) (m : Memory) (q : ℕ)
    → Apart ts
    → put_back_all ts m q ≡ Option.get_or (covered ts q) (m q)
unfolding put_back_all covered
put_back_all-covered [] m q h = refl
put_back_all-covered (t ∷ ts) m q h =
    ground (arith, put_back_all-covered ts (put_back t m) q h.1, put_back_lem t m q, h.0 q)

-- Clearing the breakpoints with their traps leaves the program itself in the memory, where no two
-- user breakpoints overlap.
pub clear_breakpoints-original :
    (s : Breakpoints) (q : ℕ)
    → Apart s.usr_breakpoint
    → (clear_breakpoints true s).memory q ≡ original s q
unfolding clear_breakpoints covered
clear_breakpoints-original s q h = ground (
  arith,
  put_back_lem s.step_bkpt (put_back_all s.usr_breakpoint s.memory) q,
  put_back_all-covered s.usr_breakpoint s.memory q h,
)
