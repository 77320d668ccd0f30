-- ===== src/Stub/Breakpoints/Original.antt =====
-- The debuggee's program as it is without the stub's traps, which every operation must keep: the
-- memory, with the instruction of each valid record in place of its trap.
pub mod Unset
pub mod Clear
use rpi_stub.Common.{
  ℕ, ◌+◌, ◌-◌, ◌<◌, ◌≡◌, refl, sym, ap, subst, ◌∙◌, ◌⊎◌, ◌&&◌, true, false, Option, none, some,
  List, [], ◌∷◌, arith, if◌then◌else◌, Option-cases, inl, inr, ◌==◌, Bool-cases,
}
use mathlib.Core.Option
use rpi_stub.Stub.Memory.{Memory, IsMemory, within, byte_of, load32, store32, store, byte_of-load32}
use rpi_stub.Stub.Breakpoints.{
  TrapRec, Breakpoints, Search, found, wrong_kind, missing, behind, max_breakpoints, place, remove,
  poke_trap, set_trap, unset_trap, put_back, put_back_all, clear_breakpoints,
}
use rpi_stub.Stub.Breakpoints.Table.{place-full}
use rpi_stub.Stub.Breakpoints.Valid.{IsValid, applied, unset_trap-applied}

-- the byte that a record keeps of an address
abbrev pub byte_in : TrapRec → ℕ → Option ℕ
byte_in t q =
    if t.valid && within t.trap_address 4 q
    then some (byte_of t.instruction (q - t.trap_address))
    else none

abbrev pub first : Option ℕ → Option ℕ → Option ℕ
first none b = b
first (some a) b = some a

-- the byte that the first record that has one keeps of an address
unfoldable pub covered : List TrapRec → ℕ → Option ℕ
covered [] q = none
covered (t ∷ ts) q = first (byte_in t q) (covered ts q)

abbrev pub traps : Breakpoints → List TrapRec
traps s = s.step_bkpt ∷ s.usr_breakpoint

-- the program's byte at an address
abbrev pub original : Breakpoints → ℕ → ℕ
original s q = Option.get_or (covered (traps s) q) (s.memory q)

-- No record keeps a byte of the word at an address.
abbrev pub IsFree : ℕ → List TrapRec → Type 0
IsFree a ts = (q : ℕ) → (within a 4 q ≡ false) ⊎ (covered ts q ≡ none)

unused : (t : TrapRec) (q : ℕ) → t.valid ≡ false → byte_in t q ≡ none
unused t q h = ground arith

place-covered_new :
    (new : TrapRec) (ts : List TrapRec) (q : ℕ) {us : List TrapRec}
    → place new ts ≡ some us
    → covered ts q ≡ none
    → covered us q ≡ byte_in new q
unfolding place covered
place-covered_new new [] q h c = absurd (ground arith)
place-covered_new new (t ∷ ts) q {us} h c = elim (Bool-cases (t.valid)) [
  | inl e ↦ elim (Option-cases (place new ts)) [
    | inl f ↦ absurd (ground (arith, f))
    | inr (ws, f) ↦ ground (arith, f, place-covered_new new ts q f)
  ]
  | inr e ↦ ground arith
]

place-covered_old :
    (new : TrapRec) (ts : List TrapRec) (q : ℕ) {us : List TrapRec}
    → place new ts ≡ some us
    → byte_in new q ≡ none
    → covered us q ≡ covered ts q
unfolding place covered
place-covered_old new [] q h c = absurd (ground arith)
place-covered_old new (t ∷ ts) q {us} h c = elim (Bool-cases (t.valid)) [
  | inl e ↦ elim (Option-cases (place new ts)) [
    | inl f ↦ absurd (ground (arith, f))
    | inr (ws, f) ↦ ground (arith, f, place-covered_old new ts q f)
  ]
  | inr e ↦ ground (arith, unused t q e)
]

poke_trap-outside : (m : Memory) (a kind q : ℕ) → within a 4 q ≡ false → poke_trap m a kind q ≡ m q
unfolding poke_trap store
poke_trap-outside m a kind q h = ground arith

pub loaded :
    (m : Memory) (a q : ℕ) → IsMemory m → within a 4 q ≡ true → byte_of (load32 m a) (q - a) ≡ m q
loaded m a q hm h =
    byte_of-load32 m a (q - a) hm (ground arith)
    ∙ ap m (let e : a + (q - a) ≡ q = ground arith in e)

-- On a valid state with less than 64 breakpoints and a memory of bytes, setting a breakpoint on a
-- word that no other breakpoint touches leaves the program as it was: the record keeps what the
-- trap overwrites.
pub original-set_trap :
    (address kind : ℕ) {s : Breakpoints} (q : ℕ)
    → IsValid s
    → s.num_bkpts < max_breakpoints
    → IsMemory s.memory
    → IsFree address (traps s)
    → original (set_trap address kind s).1 q ≡ original s q
unfolding set_trap
original-set_trap address kind {s} q v room hm free =
    elim (Option-cases (place new s.usr_breakpoint)) [
      | inl e ↦ absurd (ground (arith, place-full new s.usr_breakpoint e))
      | inr (us, e) ↦
          let ne : (s.num_bkpts == max_breakpoints) ≡ false = ground arith in
          simp (ne, e)
            (unfold covered in
              elim (Bool-cases (within address 4 q)) [
                | inl h ↦ ground (
                  arith,
                  place-covered_new new s.usr_breakpoint q e,
                  loaded s.memory address q hm h,
                  free q,
                )
                | inr h ↦ ground (
                  arith,
                  place-covered_old new s.usr_breakpoint q e,
                  poke_trap-outside s.memory address kind q h,
                )
              ])
    ]
  where
    new : TrapRec
    new = record {
      trap_address = address;
      instruction = load32 s.memory address;
      trap_kind = kind;
      valid = true;
    }
