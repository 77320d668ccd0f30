-- ===== src/Stub/Watchpoints.antt =====
-- Watchpoints (gdb.c): the table of user watchpoints and the debug hardware's registers, which
-- `rpi2_set_watchpoint` and `rpi2_unset_watchpoint` (rpi2.c) write.
pub mod Range
pub mod Valid
use rpi_stub.Common.{
  ℕ, zero, suc, ◌+◌, ◌-◌, ◌*◌, ◌/◌, ◌%◌, ◌^◌, Bool, true, false, Option, none, some, List, [], ◌∷◌,
  ◌==◌, ◌&&◌, not, ltb, leb, ◌||◌, if◌then◌else◌, bit_and, bit_or, get_or, set,
}
use rpi_stub.Common.Int.{ℤ, pos, negsuc}

abbrev pub max_watchpoints : ℕ
max_watchpoints = 4

-- `gdb_watch_rec`
pub record WatchRec : Type 0 where
  pub address : ℕ
  pub type : ℕ
  pub size : ℕ
  pub value : ℕ
  pub mask : ℕ
  pub bas : ℕ
  pub valid : Bool

-- The debug registers: DBGWVRn and DBGWCRn for each number n, and DBGDSCR.
pub record DebugHw : Type 0 where
  pub wvr : ℕ → ℕ
  pub wcr : ℕ → ℕ
  pub dscr : ℕ

pub record Watchpoints : Type 0 where
  pub usr_watchpoint : List WatchRec
  pub num_watchps : ℕ
  pub hw : DebugHw

-- The mode switch around both functions: `|= (1 << 15)` before, and `|= ~(1 << 15)` behind.
unfoldable pub monitor_on_off : ℕ → ℕ
monitor_on_off dscr = bit_or (bit_or dscr (2 ^ 15)) (2 ^ 32 - 1 - 2 ^ 15)

abbrev pub write_reg : (ℕ → ℕ) → ℕ → ℕ → ℕ → ℕ
write_reg r num v n = if (n == num) && ltb num 4 then v else r n

-- `rpi2_set_watchpoint`
unfoldable pub set_watchpoint : ℕ → ℕ → ℕ → DebugHw → DebugHw
unfolding monitor_on_off
set_watchpoint num addr control h = record {
  wvr = write_reg h.wvr num addr;
  wcr = write_reg h.wcr num control;
  dscr = monitor_on_off h.dscr;
}

-- `rpi2_unset_watchpoint`
unfoldable pub unset_watchpoint : ℕ → DebugHw → DebugHw
unfolding monitor_on_off
unset_watchpoint num h = record h { wcr = write_reg h.wcr num 0; dscr = monitor_on_off h.dscr }

-- `for (i=0; i<bytes; i++) bas |= (1 << (alignment + i));`, from `i` on, with the rounds left
unfoldable pub bas_loop : ℕ → ℕ → ℕ → ℕ → ℕ
bas_loop zero alignment i bas = bas
bas_loop (suc n) alignment i bas = bas_loop n alignment (i + 1) (bit_or bas (2 ^ (alignment + i)))

-- `while (tmp >>= 1) alignment++;` with fuel; a 32-bit word needs 31 rounds at most
unfoldable pub msb_loop : ℕ → ℕ → ℕ → ℕ
msb_loop zero tmp alignment = alignment
msb_loop (suc f) tmp alignment =
    let more = msb_loop f (tmp / 2) (alignment + 1) in if tmp / 2 == 0 then alignment else more

-- What `dgb_add_watchpoint` works out of an address and a size: `value`, `mask` (the MASK field),
-- `bas`, and the record's own `mask`.
pub record WatchRange : Type 0 where
  pub value : ℕ
  pub mask_field : ℕ
  pub bas : ℕ
  pub mask : ℕ

-- the middle of `dgb_add_watchpoint`; `none` is its -2
unfoldable pub watch_range : ℕ → ℕ → Option WatchRange
unfolding bas_loop msb_loop
watch_range addr bytes =
    let alignment = msb_loop 32 bytes 0 in
    let tmp = 2 ^ 32 - 2 ^ alignment in
    if leb bytes 4
    then some (record {
      value = bit_and addr (2 ^ 32 - 8);
      mask_field = 0;
      bas = bas_loop bytes (bit_and addr 7) 0 0;
      mask = 2 ^ 32 - 8;
    })
    else if ltb 31 alignment
    then none
    else if ltb alignment 3
    then none
    else if not (bit_and bytes (2 ^ 32 - 1 - 2 ^ alignment) == 0)
    then none
    else some (record { value = bit_and addr tmp; mask_field = alignment; bas = 0xff; mask = tmp })

-- `control`, on 32 bits
unfoldable pub control_word : ℕ → WatchRange → ℕ
control_word type r =
    bit_or
      (bit_or
        (bit_or (bit_or (bit_or (r.mask_field * 2 ^ 24 % 2 ^ 32) (2 ^ 13)) (r.bas * 2 ^ 5 % 2 ^ 32))
          (type * 2 ^ 3 % 2 ^ 32))
        (3 * 2 ^ 1))
      1

-- the search for a slot with `valid == 0`, from number `i` on
unfoldable pub free_slot : List WatchRec → ℕ → Option ℕ
free_slot [] i = none
free_slot (w ∷ ws) i = if w.valid then free_slot ws (i + 1) else some i

abbrev pub no_watch : WatchRec
no_watch = record { address = 0; type = 0; size = 0; value = 0; mask = 0; bas = 0; valid = false }

-- the stores to a slot before the range is checked
abbrev pub claimed : ℕ → ℕ → ℕ → WatchRec → WatchRec
claimed type addr bytes w = record w { type = type; size = bytes; address = addr }

-- the stores behind it
abbrev pub armed : WatchRange → WatchRec → WatchRec
armed r w = record w { mask = r.mask; bas = r.bas; value = r.value; valid = true }

-- `dgb_add_watchpoint`: the number of the slot, or -1 where all are taken, or -2 for a bad range
unfoldable pub add_watchpoint : ℕ → ℕ → ℕ → Watchpoints → ℤ × Watchpoints
unfolding free_slot watch_range control_word set_watchpoint
add_watchpoint type addr bytes s =
    if bytes == 0 then (negsuc 1, s) else elim (free_slot s.usr_watchpoint 0) [
      | none ↦ (negsuc 0, s)
      | some num ↦
          let w = claimed type addr bytes (get_or s.usr_watchpoint num no_watch) in
          elim (watch_range addr bytes) [
            | none ↦ (negsuc 1, record s { usr_watchpoint = set s.usr_watchpoint num w })
            | some r ↦ (
              pos num,
              record {
                usr_watchpoint = set s.usr_watchpoint num (armed r w);
                num_watchps = s.num_watchps + 1;
                hw = set_watchpoint num r.value (control_word type r) s.hw;
              },
            )
          ]
    ]

abbrev pub matches : ℕ → ℕ → ℕ → WatchRec → Bool
matches type addr bytes w = w.valid && (w.address == addr) && (w.size == bytes) && (w.type == type)

-- the search of `dgb_del_watchpoint`
unfoldable pub find_watch : ℕ → ℕ → ℕ → List WatchRec → ℕ → Option ℕ
find_watch type addr bytes [] i = none
find_watch type addr bytes (w ∷ ws) i =
    if matches type addr bytes w then some i else find_watch type addr bytes ws (i + 1)

-- `dgb_del_watchpoint`
unfoldable pub del_watchpoint : ℕ → ℕ → ℕ → Watchpoints → ℤ × Watchpoints
unfolding find_watch unset_watchpoint
del_watchpoint type addr bytes s = elim (find_watch type addr bytes s.usr_watchpoint 0) [
  | none ↦ (negsuc 0, s)
  | some i ↦ (
    pos i,
    record {
      usr_watchpoint =
          set s.usr_watchpoint i (record (get_or s.usr_watchpoint i no_watch) { valid = false });
      num_watchps = s.num_watchps - 1;
      hw = unset_watchpoint i s.hw;
    },
  )
]

-- the test of `gdb_check_watchpoint` on one record
unfoldable pub hits : ℕ → WatchRec → Bool
hits far w =
    if ltb 4 w.size
    then bit_and far w.mask == w.value
    else (bit_and far (2 ^ 32 - 8) == w.value) && not (bit_and (2 ^ bit_and far 7) w.bas == 0)

-- the loop of `gdb_check_watchpoint`
unfoldable pub check_loop : ℕ → List WatchRec → ℕ → Option ℕ
unfolding hits
check_loop far [] i = none
check_loop far (w ∷ ws) i = if w.valid && hits far w then some i else check_loop far ws (i + 1)

-- `gdb_check_watchpoint` at the fault address; `none` is its -1
unfoldable pub check_watchpoint : ℕ → Watchpoints → Option ℕ
unfolding check_loop
check_watchpoint far s = check_loop far s.usr_watchpoint 0

unfoldable pub clear_watches : List WatchRec → List WatchRec
clear_watches [] = []
clear_watches (w ∷ ws) = no_watch ∷ clear_watches ws

-- the hardware's part of `gdb_clear_watchpoints`
unfoldable pub unset_all : Bool → List WatchRec → ℕ → DebugHw → DebugHw
unfolding unset_watchpoint
unset_all remove_traps [] i h = h
unset_all remove_traps (w ∷ ws) i h =
    unset_all remove_traps ws (i + 1) (if remove_traps && w.valid then unset_watchpoint i h else h)

-- `gdb_clear_watchpoints`
unfoldable pub clear_watchpoints : Bool → Watchpoints → Watchpoints
unfolding clear_watches unset_all
clear_watchpoints remove_traps s = record {
  usr_watchpoint = clear_watches s.usr_watchpoint;
  num_watchps = 0;
  hw = unset_all remove_traps s.usr_watchpoint 0 s.hw;
}
