-- ===== src/Stub/Watchpoints/Range.antt =====
-- Which accesses a watchpoint's record is taken to be hit by.
use rpi_stub.Common.{
  ℕ, ◌+◌, ◌-◌, ◌*◌, ◌/◌, ◌%◌, ◌^◌, ◌≤◌, ◌<◌, ◌≡◌, ◌↔◌, refl, sym, ap, subst, ◌∙◌, true, false, some,
  ◌==◌, ◌&&◌, ◌||◌, not, ltb, leb, if◌then◌else◌, bit_and, bit_and-field, bit_and-mask, all_below,
  all_below_sound, ==_iff, ==-refl, arith,
}
use native.Mathlib.Nat.{mod-eq_of_lt, mul-div_cancel, div-lt_iff_lt-mul}
use rpi_stub.Stub.Watchpoints.{
  WatchRec, WatchRange, watch_range, bas_loop, msb_loop, hits, claimed, armed,
}

-- `|` sets just the bits of the range: over all alignments, sizes and bytes of a doubleword.
bas_table :
    all_below 8 (λ a. all_below 5 (λ n. all_below 8 (λ t.
      if (leb a t && ltb t (a + n))
      then not (bit_and (2 ^ t) (bas_loop n a 0 0) == 0)
      else bit_and (2 ^ t) (bas_loop n a 0 0) == 0)))
    ≡ true
unfolding all_below bas_loop
bas_table = refl

bas_lem :
    (a n t : ℕ)
    → a < 8
    → n < 5
    → t < 8
    → not (bit_and (2 ^ t) (bas_loop n a 0 0) == 0) ≡ (leb a t && ltb t (a + n))
bas_lem a n t ha hn ht =
    let e1 = all_below_sound 8 _ a bas_table ha in
    let e2 = all_below_sound 5 _ n e1 hn in let e3 = all_below_sound 8 _ t e2 ht in ground arith

low_three : (x : ℕ) → bit_and x 7 ≡ x % 8
low_three x = bit_and-mask 3 x

high_bits : (x : ℕ) → x < 2 ^ 32 → bit_and x (2 ^ 32 - 8) ≡ x / 8 * 8
high_bits x h = bit_and-field 3 29 x ∙ omega arith

bas_small_table :
    all_below 8 (λ a. all_below 5 (λ n. leb 9 (a + n) || ltb (bas_loop n a 0 0) 256)) ≡ true
unfolding all_below bas_loop
bas_small_table = refl

bas_small : (a n : ℕ) → a < 8 → n < 5 → a + n ≤ 8 → bas_loop n a 0 0 < 256
bas_small a n ha hn h =
    let e = all_below_sound 5 _ n (all_below_sound 8 _ a bas_small_table ha) hn in ground arith

abbrev small : ℕ → ℕ → WatchRange
small addr bytes = record {
  value = bit_and addr (2 ^ 32 - 8);
  mask_field = 0;
  bas = bas_loop bytes (bit_and addr 7) 0 0;
  mask = 2 ^ 32 - 8;
}

watch_range-small : (addr bytes : ℕ) → bytes ≤ 4 → watch_range addr bytes ≡ some (small addr bytes)
unfolding watch_range
watch_range-small addr bytes h = ground arith

hits-small :
    (type addr bytes far : ℕ) (w : WatchRec)
    → addr < 2 ^ 32
    → far < 2 ^ 32
    → bytes ≤ 4
    → hits far (armed (small addr bytes) (claimed type addr bytes w))
      ≡ (far / 8 * 8 == addr / 8 * 8)
        && (leb (addr % 8) (far % 8) && ltb (far % 8) (addr % 8 + bytes))
unfolding hits
hits-small type addr bytes far w ha hf h =
    rw
      (
        low_three far,
        low_three addr,
        high_bits far hf,
        high_bits addr ha,
        bas_lem (addr % 8) bytes (far % 8) (omega arith) (omega arith) (omega arith),
      )
      (ground arith)

-- A watchpoint of up to four bytes inside a doubleword is hit by exactly the accesses to its bytes,
-- and its byte-address-select fits its eight bits.
pub hits_bytes :
    (type addr bytes far : ℕ) (w : WatchRec)
    → addr < 2 ^ 32
    → far < 2 ^ 32
    → bytes ≤ 4
    → addr % 8 + bytes ≤ 8
    → (r : WatchRange) × (watch_range addr bytes ≡ some r)
      × ((hits far (armed r (claimed type addr bytes w)) ≡ true)
          ↔ ((addr ≤ far) × (far < addr + bytes)))
      × (r.bas < 2 ^ 8)
hits_bytes type addr bytes far w ha hf h4 h8 = (
  small addr bytes,
  watch_range-small addr bytes h4,
  rw (hits-small type addr bytes far w ha hf h4) (ground arith),
  rw (low_three addr) (bas_small (addr % 8) bytes (omega arith) (omega arith) h8),
)

bas_large_table :
    all_below 8 (λ a. all_below 5 (λ n. leb (a + n) 8 || leb 256 (bas_loop n a 0 0))) ≡ true
unfolding all_below bas_loop
bas_large_table = refl

bas_large : (a n : ℕ) → a < 8 → n < 5 → 8 < a + n → 256 ≤ bas_loop n a 0 0
bas_large a n ha hn h =
    let e = all_below_sound 5 _ n (all_below_sound 8 _ a bas_large_table ha) hn in ground arith

-- Where up to four bytes run into the next doubleword, the range is accepted, but no access to the
-- bytes there is taken for a hit, and the byte-address-select spills over its eight bits of the
-- control register.
pub hits_bytes_crossing :
    (type addr bytes far : ℕ) (w : WatchRec)
    → addr < 2 ^ 32
    → far < 2 ^ 32
    → bytes ≤ 4
    → 8 < addr % 8 + bytes
    → (addr / 8 + 1) * 8 ≤ far
    → (r : WatchRange) × (watch_range addr bytes ≡ some r)
      × (hits far (armed r (claimed type addr bytes w)) ≡ false)
      × (2 ^ 8 ≤ r.bas)
hits_bytes_crossing type addr bytes far w ha hf h4 h8 beyond = (
  small addr bytes,
  watch_range-small addr bytes h4,
  rw (hits-small type addr bytes far w ha hf h4) (ground arith),
  rw (low_three addr) (bas_large (addr % 8) bytes (omega arith) (omega arith) h8),
)

-- Powers of two from 8 on: the power is found, it is the only bit, and what `tmp` masks.
msb_table : all_below 29 (λ j. msb_loop 32 (2 ^ (j + 3)) 0 == j + 3) ≡ true
unfolding all_below msb_loop
msb_table = refl

one_bit_table : all_below 29 (λ j. bit_and (2 ^ (j + 3)) (2 ^ 32 - 1 - 2 ^ (j + 3)) == 0) ≡ true
unfolding all_below
one_bit_table = refl

mask_table : all_below 29 (λ j. 2 ^ 32 - 2 ^ (j + 3) == (2 ^ (29 - j) - 1) * 2 ^ (j + 3)) ≡ true
unfolding all_below
mask_table = refl

split_table : all_below 29 (λ j. 2 ^ (29 - j) * 2 ^ (j + 3) == 2 ^ 32) ≡ true
unfolding all_below
split_table = refl

eight_table : all_below 29 (λ j. leb 8 (2 ^ (j + 3))) ≡ true
unfolding all_below
eight_table = refl

abbrev block : ℕ → ℕ → WatchRange
block addr j = record {
  value = bit_and addr (2 ^ 32 - 2 ^ (j + 3));
  mask_field = j + 3;
  bas = 0xff;
  mask = 2 ^ 32 - 2 ^ (j + 3);
}

low_lem : (j : ℕ) → ltb (j + 3) 3 ≡ false
low_lem j = ground arith

high_lem : (j : ℕ) → j < 29 → ltb 31 (j + 3) ≡ false
high_lem j h = ground arith

leb_four : (b : ℕ) → 8 ≤ b → leb b 4 ≡ false
leb_four b h = ground arith

ltb_four : (b : ℕ) → 8 ≤ b → ltb 4 b ≡ true
ltb_four b h = ground arith

same_block : (b x y : ℕ) → 8 ≤ b → x * b ≡ y * b → x ≡ y
same_block b x y h e =
    sym (mul-div_cancel x (omega arith)) ∙ ap (λ (t : ℕ). t / b) e ∙ mul-div_cancel y (omega arith)

module _ (j : ℕ) (hj : j < 29) where
  at_least_eight : 8 ≤ 2 ^ (j + 3)
  at_least_eight = let e = all_below_sound 29 _ j eight_table hj in ground arith

  watch_range-block : (addr : ℕ) → watch_range addr (2 ^ (j + 3)) ≡ some (block addr j)
  unfolding watch_range
  watch_range-block addr =
      let msb = (==_iff _ _).0 (all_below_sound 29 _ j msb_table hj) in
      let one = all_below_sound 29 _ j one_bit_table hj in
      rw (msb, one, leb_four _ at_least_eight, low_lem j, high_lem j hj)

  block_bits :
      (x : ℕ) → x < 2 ^ 32 → bit_and x (2 ^ 32 - 2 ^ (j + 3)) ≡ x / 2 ^ (j + 3) * 2 ^ (j + 3)
  block_bits x hx =
      let mask = (==_iff _ _).0 (all_below_sound 29 _ j mask_table hj) in
      let split : 2 ^ (29 - j) * 2 ^ (j + 3) ≡ 2 ^ 32 =
        (==_iff _ _).0 (all_below_sound 29 _ j split_table hj) in
      let less = subst (λ b. x < b) (sym split) hx in
      let small : x / 2 ^ (j + 3) < 2 ^ (29 - j) =
        (div-lt_iff_lt-mul (omega (arith, at_least_eight))).1 less in
      rw (mask, bit_and-field (j + 3) (29 - j) x, mod-eq_of_lt small)

  -- A watchpoint on a power of two of bytes, from 8 to 2^31, is hit by exactly the accesses to the
  -- aligned block of that size that holds its address.
  pub hits_block :
      (type addr far : ℕ) (w : WatchRec)
      → addr < 2 ^ 32
      → far < 2 ^ 32
      → (r : WatchRange) × (watch_range addr (2 ^ (j + 3)) ≡ some r)
        × ((hits far (armed r (claimed type addr (2 ^ (j + 3)) w)) ≡ true)
            ↔ (far / 2 ^ (j + 3) ≡ addr / 2 ^ (j + 3)))
  unfolding hits
  hits_block type addr far w ha hf = (
    block addr j,
    watch_range-block addr,
    rw (ltb_four _ at_least_eight, block_bits far hf, block_bits addr ha)
        ((λ e. same_block _ _ _ at_least_eight ((==_iff _ _).0 e)), λ e. rw e (==-refl _)),
  )
