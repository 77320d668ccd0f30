-- ===== src/Instr/Condition.antt =====
-- `will_branch` (instr_comm.c): whether an instruction's condition holds for the stored flags.
use rpi_stub.Common.{
  ℕ, ◌*◌, ◌/◌, ◌%◌, ◌^◌, ◌<◌, ◌≡◌, ◌≢◌, refl, ap, ◌∙◌, Bool, true, false, ◌==◌, ◌&&◌, ◌||◌, not,
  if◌then◌else◌, bit_and, bit_and-field, all_below, all_below_sound, arith, ◌⊎◌, inl, inr,
}

-- `flags & INSTR_FLAG_N` and so on, as tests
abbrev pub flag_n : ℕ → Bool
flag_n flags = not (bit_and flags 0x8 == 0)

abbrev pub flag_z : ℕ → Bool
flag_z flags = not (bit_and flags 0x4 == 0)

abbrev pub flag_c : ℕ → Bool
flag_c flags = not (bit_and flags 0x2 == 0)

abbrev pub flag_v : ℕ → Bool
flag_v flags = not (bit_and flags 0x1 == 0)

-- a truth value of C as an `int`
abbrev pub to_int : Bool → ℕ
to_int true = 1
to_int false = 0

abbrev pub same_n_v : ℕ → Bool
same_n_v f = not (flag_n f) && not (flag_v f) || flag_n f && flag_v f

abbrev pub other_n_v : ℕ → Bool
other_n_v f = flag_n f && not (flag_v f) || not (flag_n f) && flag_v f

-- the `switch` over the condition
unfoldable pub condition : ℕ → ℕ → Bool
condition cond f =
    if cond == 0x0
    then flag_z f
    else if cond == 0x1
    then not (flag_z f)
    else if cond == 0x2
    then flag_c f
    else if cond == 0x3
    then not (flag_c f)
    else if cond == 0x4
    then flag_n f
    else if cond == 0x5
    then not (flag_n f)
    else if cond == 0x6
    then flag_v f
    else if cond == 0x7
    then not (flag_v f)
    else if cond == 0x8
    then to_int (flag_z f || flag_c f) == bit_and f 0x2
    else if cond == 0x9
    then to_int (flag_z f || flag_c f) == bit_and f 0x4
    else if cond == 0xa
    then same_n_v f
    else if cond == 0xb
    then other_n_v f
    else if cond == 0xc
    then not (flag_z f) && same_n_v f
    else if cond == 0xd
    then flag_z f && other_n_v f
    else false

-- `will_branch`, with the stored CPSR
unfoldable pub will_branch : ℕ → ℕ → Bool
unfolding condition
will_branch cpsr instr =
    if bit_and instr 0xf0000000 == 0xf * 2 ^ 28
    then true
    else if bit_and instr 0xf0000000 == 0xe * 2 ^ 28
    then true
    else condition (bit_and instr 0xf0000000 / 2 ^ 28) (bit_and cpsr 0xf0000000 / 2 ^ 28)

-- The architecture's conditions over the four flags: the upper three bits of the field choose a
-- test, and its lowest bit turns it round, except in 15.
abbrev pub bit_test : ℕ → Bool → Bool → Bool → Bool → Bool
bit_test test n z c v =
    if test == 0
    then z
    else if test == 1
    then c
    else if test == 2
    then n
    else if test == 3
    then v
    else if test == 4
    then c && not z
    else if test == 5
    then n && v || not n && not v
    else if test == 6
    then (n && v || not n && not v) && not z
    else true

unfoldable pub holds : ℕ → ℕ → Bool
holds cond f =
    let test = bit_test (cond / 2) (flag_n f) (flag_z f) (flag_c f) (flag_v f) in
    if cond == 15 then true else if cond % 2 == 0 then test else not test

-- the driver's answer with the condition and the flags as numbers
unfoldable pub answer : ℕ → ℕ → Bool
unfolding condition
answer cond f = if cond == 0xf then true else if cond == 0xe then true else condition cond f

scaled_15 : (x : ℕ) → (x * 2 ^ 28 == 0xf * 2 ^ 28) ≡ (x == 0xf)
scaled_15 x = ground arith

scaled_14 : (x : ℕ) → (x * 2 ^ 28 == 0xe * 2 ^ 28) ≡ (x == 0xe)
scaled_14 x = ground arith

will_branch-answer :
    (cpsr instr : ℕ) → will_branch cpsr instr ≡ answer (instr / 2 ^ 28 % 16) (cpsr / 2 ^ 28 % 16)
unfolding will_branch answer
will_branch-answer cpsr instr =
    let c = bit_and-field 28 4 instr in
    let f = bit_and-field 28 4 cpsr in
    let c' : instr / 2 ^ 28 % 2 ^ 4 * 2 ^ 28 / 2 ^ 28 ≡ instr / 2 ^ 28 % 16 = omega arith in
    let f' : cpsr / 2 ^ 28 % 2 ^ 4 * 2 ^ 28 / 2 ^ 28 ≡ cpsr / 2 ^ 28 % 16 = omega arith in
    rw (c, f, c', f', scaled_15 (instr / 2 ^ 28 % 16), scaled_14 (instr / 2 ^ 28 % 16))

right_table :
    all_below 16 (λ cond. all_below 16 (λ f.
      (cond == 8)
      || (cond == 9)
      || (cond == 13)
      || (to_int (answer cond f) == to_int (holds cond f))))
    ≡ true
unfolding all_below answer holds
right_table = refl

wrong_table :
    all_below 16 (λ f.
      (to_int (answer 8 f) == to_int (not (flag_c f) && not (flag_z f)))
      && (to_int (answer 9 f) == to_int (not (flag_c f) && not (flag_z f)))
      && (to_int (answer 13 f) == to_int (flag_z f && other_n_v f)))
    ≡ true
unfolding all_below answer
wrong_table = refl

to_int_inj : (a b : Bool) → (to_int a == to_int b) ≡ true → a ≡ b
to_int_inj true true h = refl
to_int_inj true false h = absurd (ground arith)
to_int_inj false true h = absurd (ground arith)
to_int_inj false false h = refl

-- the condition field of an instruction and the flags of a status word
abbrev pub field : ℕ → ℕ
field word = word / 2 ^ 28 % 16

skip_others :
    (cond : ℕ) (b : Bool)
    → cond ≢ 8
    → cond ≢ 9
    → cond ≢ 13
    → ((cond == 8) || (cond == 9) || (cond == 13) || b) ≡ true
    → b ≡ true
skip_others cond b h8 h9 h13 e = ground arith

-- For every condition but 8 (HI), 9 (LS) and 13 (LE), and for all flags, `will_branch` answers as the
-- architecture says.
pub will_branch-holds :
    (cpsr instr : ℕ)
    → field instr ≢ 8
    → field instr ≢ 9
    → field instr ≢ 13
    → will_branch cpsr instr ≡ holds (field instr) (field cpsr)
will_branch-holds cpsr instr h8 h9 h13 =
    let row = all_below_sound 16 _ (field instr) right_table (omega arith) in
    let cell = all_below_sound 16 _ (field cpsr) row (omega arith) in
    will_branch-answer cpsr instr ∙ to_int_inj _ _ (skip_others (field instr) _ h8 h9 h13 cell)

both : (a b c : Bool) → (a && b && c) ≡ true → (a ≡ true) × (b ≡ true) × (c ≡ true)
both a b c h = ground arith

wrong_row :
    (f : ℕ)
    → f < 16
    → (answer 8 f ≡ (not (flag_c f) && not (flag_z f)))
      × (answer 9 f ≡ (not (flag_c f) && not (flag_z f)))
      × (answer 13 f ≡ (flag_z f && other_n_v f))
wrong_row f h =
    let (hi, ls, le) = both _ _ _ (all_below_sound 16 _ f wrong_table h) in
    (to_int_inj _ _ hi, to_int_inj _ _ ls, to_int_inj _ _ le)

-- For HI and for LS alike, `will_branch` answers whether C and Z are both clear; HI asks for C set and
-- Z clear, and LS for the opposite.
pub will_branch_unsigned :
    (cpsr instr : ℕ)
    → (field instr ≡ 8) ⊎ (field instr ≡ 9)
    → will_branch cpsr instr ≡ (not (flag_c (field cpsr)) && not (flag_z (field cpsr)))
will_branch_unsigned cpsr instr cond =
    let (hi, ls, le) = wrong_row (field cpsr) (omega arith) in
    let e = will_branch-answer cpsr instr in
    elim cond [
      | inl is_hi ↦ e ∙ ap (λ c. answer c (field cpsr)) is_hi ∙ hi
      | inr is_ls ↦ e ∙ ap (λ c. answer c (field cpsr)) is_ls ∙ ls
    ]

-- For LE, `will_branch` asks for Z set and N other than V, where one of them is enough.
pub will_branch_signed_le :
    (cpsr instr : ℕ)
    → field instr ≡ 13
    → will_branch cpsr instr ≡ (flag_z (field cpsr) && other_n_v (field cpsr))
will_branch_signed_le cpsr instr cond =
    let (hi, ls, le) = wrong_row (field cpsr) (omega arith) in
    will_branch-answer cpsr instr ∙ ap (λ c. answer c (field cpsr)) cond ∙ le
