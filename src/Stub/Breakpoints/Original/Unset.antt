-- ===== src/Stub/Breakpoints/Original/Unset.antt =====
-- Removing a breakpoint keeps the debuggee's program.
use rpi_stub.Common.{
  ℕ, ◌-◌, ◌≡◌, refl, sym, ap, subst, ◌∙◌, ◌&&◌, true, false, none, some, List, [], ◌∷◌, arith, inl,
  inr, ◌==◌, Bool-cases,
}
use rpi_stub.Stub.Memory.{Memory, within, byte_of, store32, store}
use rpi_stub.Stub.Breakpoints.{
  TrapRec, Breakpoints, Search, found, wrong_kind, missing, behind, remove, unset_trap,
}
use rpi_stub.Stub.Breakpoints.Valid.{applied, unset_trap-applied}
use rpi_stub.Stub.Breakpoints.Original.{covered, traps, original, IsFree}

behind-found :
    (t : TrapRec) (r : Search) {us : List TrapRec} {v : ℕ}
    → behind t r ≡ found us v
    → (ws : List TrapRec) × (r ≡ found ws v) × (us ≡ t ∷ ws)
behind-found t (found ws x) h = (ws, ground arith, ground arith)
behind-found t wrong_kind h = absurd (ground arith)
behind-found t missing h = absurd (ground arith)

-- What `remove` takes out of the table.
remove-covered_in :
    (a k : ℕ) (ts : List TrapRec) (q : ℕ) {us : List TrapRec} {v : ℕ}
    → remove a k ts ≡ found us v
    → within a 4 q ≡ true
    → covered us q ≡ none
    → covered ts q ≡ some (byte_of v (q - a))
unfolding remove covered
remove-covered_in a k [] q h w c = absurd (ground arith)
remove-covered_in a k (t ∷ ts) q {us} {v} h w c =
    elim (Bool-cases (t.valid && (t.trap_address == a))) [
      | inl e ↦ ground arith
      | inr e ↦
          let (ws, f, g) = behind-found t (remove a k ts) {us = us} {v = v} (ground arith) in
          ground (arith, f, g, remove-covered_in a k ts q f w)
    ]

remove-covered_out :
    (a k : ℕ) (ts : List TrapRec) (q : ℕ) {us : List TrapRec} {v : ℕ}
    → remove a k ts ≡ found us v
    → within a 4 q ≡ false
    → covered us q ≡ covered ts q
unfolding remove covered
remove-covered_out a k [] q h w = absurd (ground arith)
remove-covered_out a k (t ∷ ts) q {us} {v} h w =
    elim (Bool-cases (t.valid && (t.trap_address == a))) [
      | inl e ↦ ground arith
      | inr e ↦
          let (ws, f, g) = behind-found t (remove a k ts) {us = us} {v = v} (ground arith) in
          ground (arith, f, g, remove-covered_out a k ts q f w)
    ]

store32_in : (m : Memory) (a v q : ℕ) → within a 4 q ≡ true → store32 m a v q ≡ byte_of v (q - a)
unfolding store
store32_in m a v q h = ground arith

store32_out : (m : Memory) (a v q : ℕ) → within a 4 q ≡ false → store32 m a v q ≡ m q
unfolding store
store32_out m a v q h = ground arith

applied-found :
    (a : ℕ) (s : Breakpoints) (r : Search)
    → (applied a s r).0 ≡ 0
    → (us : List TrapRec) × (v : ℕ) × (r ≡ found us v)
unfolding applied
applied-found a s (found us v) h = (us, v, refl)
applied-found a s wrong_kind h = absurd (omega arith)
applied-found a s missing h = absurd (omega arith)

original-applied :
    (address kind q : ℕ) (s : Breakpoints) {us : List TrapRec} {v : ℕ}
    → remove address kind s.usr_breakpoint ≡ found us v
    → IsFree address (traps (applied address s (found us v)).1)
    → original (applied address s (found us v)).1 q ≡ original s q
unfolding applied covered
original-applied address kind q s {us} {v} e free = elim (Bool-cases (within address 4 q)) [
  | inl h ↦ ground (
    arith,
    free q,
    remove-covered_in address kind s.usr_breakpoint q e h,
    store32_in s.memory address v q h,
  )
  | inr h ↦ ground (
    arith,
    remove-covered_out address kind s.usr_breakpoint q e h,
    store32_out s.memory address v q h,
  )
]

-- Removing a breakpoint, where that succeeds and no breakpoint that stays touches the word, leaves
-- the program as it was: what is written back is the program's own instruction.
pub original-unset_trap :
    (address kind : ℕ) (s : Breakpoints) (q : ℕ)
    → (unset_trap address kind s).0 ≡ 0
    → IsFree address (traps (unset_trap address kind s).1)
    → original (unset_trap address kind s).1 q ≡ original s q
original-unset_trap address kind s q done free = elim (Bool-cases (s.num_bkpts == 0)) [
  | inl e ↦ absurd (unfold unset_trap in ground arith)
  | inr e ↦
      let step = unset_trap-applied address kind s (ground arith) in
      let (us, v, f) =
        applied-found address s (remove address kind s.usr_breakpoint)
          (ap (λ r. r.0) (sym step) ∙ done) in
      let here : unset_trap address kind s ≡ applied address s (found us v) =
        step ∙ ap (λ r. applied address s r) f in
      rw here
        (original-applied address kind q s f (subst (λ r. IsFree address (traps r.1)) here free))
]
