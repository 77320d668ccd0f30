-- ===== src/Stub/Watchpoints/Valid.antt =====
-- The watchpoint table's count is right after every operation.
use rpi_stub.Common.{
  ℕ, zero, suc, ◌+◌, ◌≤◌, ◌<◌, ◌≡◌, refl, ◌⊎◌, true, false, some, List, [], ◌∷◌, length, get_or,
  set, arith, length-set, if◌then◌else◌, Option-cases, inl, inr, ◌==◌, Bool-cases, ap, subst, ◌∙◌,
  ==-refl, get_or-set_self, sym,
}
use rpi_stub.Common.Int.{pos, negsuc}
use rpi_stub.Stub.Watchpoints.{
  WatchRec, WatchRange, Watchpoints, no_watch, claimed, armed, max_watchpoints, free_slot,
  find_watch, matches, watch_range, add_watchpoint, del_watchpoint,
}

unfoldable pub used : List WatchRec → ℕ
used [] = 0
used (w ∷ ws) = (if w.valid then 1 else 0) + used ws

-- The table has its four slots, and `gdb_num_watchps` counts those in use.
pub record IsValid (s : Watchpoints) : Type 0 where
  pub size : length s.usr_watchpoint ≡ max_watchpoints
  pub counted : s.num_watchps ≡ used s.usr_watchpoint

-- A store to a slot changes the count by that slot.
used-set :
    (ws : List WatchRec) (i : ℕ) (w : WatchRec)
    → i < length ws
    → used (set ws i w) + (if (get_or ws i no_watch).valid then 1 else 0)
      ≡ used ws + (if w.valid then 1 else 0)
unfolding used
used-set [] i w h = absurd (omega arith)
used-set (x ∷ xs) zero w h = omega arith
used-set (x ∷ xs) (suc i) w h = omega (arith, used-set xs i w (omega arith))

used-set_same :
    (ws : List WatchRec) (i : ℕ) (w : WatchRec)
    → i < length ws
    → (get_or ws i no_watch).valid ≡ w.valid
    → used (set ws i w) ≡ used ws
used-set_same ws i w h e = let u = used-set ws i w h in ground arith

used-set_more :
    (ws : List WatchRec) (i : ℕ) (w : WatchRec)
    → i < length ws
    → (get_or ws i no_watch).valid ≡ false
    → w.valid ≡ true
    → used (set ws i w) ≡ used ws + 1
used-set_more ws i w h e f = let u = used-set ws i w h in ground arith

used-set_less :
    (ws : List WatchRec) (i : ℕ) (w : WatchRec)
    → i < length ws
    → (get_or ws i no_watch).valid ≡ true
    → w.valid ≡ false
    → used (set ws i w) + 1 ≡ used ws
used-set_less ws i w h e f = let u = used-set ws i w h in ground arith

matches-armed :
    (type addr bytes : ℕ) (r : WatchRange) (w : WatchRec)
    → matches type addr bytes (armed r (claimed type addr bytes w)) ≡ true
matches-armed type addr bytes r w = rw (==-refl addr, ==-refl bytes, ==-refl type)

free_slot-free :
    (ws : List WatchRec) (i k : ℕ)
    → free_slot ws i ≡ some k
    → (j : ℕ) × (k ≡ j + i) × (j < length ws) × ((get_or ws j no_watch).valid ≡ false)
unfolding free_slot
free_slot-free [] i k e = absurd (ground arith)
free_slot-free (w ∷ ws) i k e = elim (Bool-cases w.valid) [
  | inl taken ↦
      let (j, at, less, free) = free_slot-free ws (i + 1) k (simp taken at e) in
      (suc j, omega arith, omega arith, free)
  | inr free ↦ (0, ground arith, omega arith, free)
]

used-le : (ws : List WatchRec) → used ws ≤ length ws
unfolding used
used-le [] = omega arith
used-le (w ∷ ws) = ground (arith, used-le ws)

-- `dgb_add_watchpoint` on a valid state: a result from 0 on is a slot that was free, now holds the
-- request, valid, and is counted; at a negative result neither the count nor the debug hardware
-- changes. The state stays valid.
pub add_watchpoint-IsValid :
    (type addr bytes : ℕ) {s : Watchpoints}
    → IsValid s
    → IsValid (add_watchpoint type addr bytes s).1
      × (((num : ℕ) × ((add_watchpoint type addr bytes s).0 ≡ pos num)
            × (num < max_watchpoints)
            × ((get_or s.usr_watchpoint num no_watch).valid ≡ false)
            × (matches type addr bytes
                  (get_or (add_watchpoint type addr bytes s).1.usr_watchpoint num no_watch)
                ≡ true)
            × ((add_watchpoint type addr bytes s).1.num_watchps ≡ s.num_watchps + 1))
          ⊎ ((n : ℕ) × ((add_watchpoint type addr bytes s).0 ≡ negsuc n)
              × ((add_watchpoint type addr bytes s).1.num_watchps ≡ s.num_watchps)
              × ((add_watchpoint type addr bytes s).1.hw ≡ s.hw)))
unfolding add_watchpoint
add_watchpoint-IsValid type addr bytes {s} v = elim (Bool-cases (bytes == 0)) [
  | inl zero_bytes ↦ simp zero_bytes (v, inr (1, refl, refl, refl))
  | inr some_bytes ↦ elim (Option-cases (free_slot s.usr_watchpoint 0)) [
    | inl full ↦ simp (some_bytes, full) (v, inr (0, refl, refl, refl))
    | inr (num, e) ↦
        let (j, at, less, free) = free_slot-free s.usr_watchpoint 0 num e in
        let here : j ≡ num = omega arith in
        let less' : num < length s.usr_watchpoint = omega arith in
        let free' : (get_or s.usr_watchpoint num no_watch).valid ≡ false =
          subst (λ n. (get_or s.usr_watchpoint n no_watch).valid ≡ false) here free in
        let w = claimed type addr bytes (get_or s.usr_watchpoint num no_watch) in
        elim (Option-cases (watch_range addr bytes)) [
          | inl bad ↦
              simp (some_bytes, e, bad)
                (
                  record {
                    size = length-set s.usr_watchpoint num w ∙ v.size;
                    counted = v.counted ∙ sym (used-set_same s.usr_watchpoint num w less' refl);
                  },
                  inr (1, refl, refl, refl),
                )
          | inr (r, good) ↦
              simp (some_bytes, e, good)
                (
                  record {
                    size = length-set s.usr_watchpoint num (armed r w) ∙ v.size;
                    counted = omega (
                      arith,
                      v.counted,
                      used-set_more s.usr_watchpoint num (armed r w) less' free' refl,
                    );
                  },
                  inl (
                    num,
                    refl,
                    omega (arith, v.size),
                    free',
                    rw (get_or-set_self s.usr_watchpoint num (armed r w) no_watch less')
                        (matches-armed type addr bytes r (get_or s.usr_watchpoint num no_watch)),
                    refl,
                  ),
                )
        ]
  ]
]

find_watch-found :
    (type addr bytes : ℕ) (ws : List WatchRec) (i k : ℕ)
    → find_watch type addr bytes ws i ≡ some k
    → (j : ℕ) × (k ≡ j + i)
      × (j < length ws)
      × (matches type addr bytes (get_or ws j no_watch) ≡ true)
unfolding find_watch
find_watch-found type addr bytes [] i k e = absurd (ground arith)
find_watch-found type addr bytes (w ∷ ws) i k e = elim (Bool-cases (matches type addr bytes w)) [
  | inl here ↦ (0, ground arith, omega arith, here)
  | inr other ↦
      let (j, at, less, it) = find_watch-found type addr bytes ws (i + 1) k (simp other at e) in
      (suc j, omega arith, omega arith, it)
]

matches-valid :
    (type addr bytes : ℕ) (w : WatchRec) → matches type addr bytes w ≡ true → w.valid ≡ true
matches-valid type addr bytes w e = ground arith

-- `dgb_del_watchpoint` on a valid state: the result is -1 and nothing changes, or it is the number
-- of a valid watchpoint with this address, size and type, whose slot is then free and no longer
-- counted. The state stays valid.
pub del_watchpoint-IsValid :
    (type addr bytes : ℕ) {s : Watchpoints}
    → IsValid s
    → IsValid (del_watchpoint type addr bytes s).1
      × ((del_watchpoint type addr bytes s ≡ (negsuc 0, s))
          ⊎ ((num : ℕ) × ((del_watchpoint type addr bytes s).0 ≡ pos num)
              × (matches type addr bytes (get_or s.usr_watchpoint num no_watch) ≡ true)
              × ((get_or (del_watchpoint type addr bytes s).1.usr_watchpoint num no_watch).valid
                  ≡ false)
              × ((del_watchpoint type addr bytes s).1.num_watchps + 1 ≡ s.num_watchps)))
unfolding del_watchpoint
del_watchpoint-IsValid type addr bytes {s} v =
    elim (Option-cases (find_watch type addr bytes s.usr_watchpoint 0)) [
      | inl e ↦ rw (e, del_watchpoint) (v, inl refl)
      | inr (num, e) ↦
          let (j, at, less, it) = find_watch-found type addr bytes s.usr_watchpoint 0 num e in
          let here : j ≡ num = omega arith in
          let less' : num < length s.usr_watchpoint = omega arith in
          let it' : matches type addr bytes (get_or s.usr_watchpoint num no_watch) ≡ true =
            subst (λ n. matches type addr bytes (get_or s.usr_watchpoint n no_watch) ≡ true) here
              it in
          let w = record (get_or s.usr_watchpoint num no_watch) { valid = false } in
          let fewer =
            used-set_less s.usr_watchpoint num w less'
              (matches-valid type addr bytes (get_or s.usr_watchpoint num no_watch) it') refl in
          rw (e, del_watchpoint)
            (
              record {
                size = length-set s.usr_watchpoint num w ∙ v.size;
                counted = omega (arith, v.counted, fewer);
              },
              inr (
                num,
                refl,
                it',
                ap (λ x. x.valid) (get_or-set_self s.usr_watchpoint num w no_watch less'),
                omega (arith, v.counted, fewer),
              ),
            )
    ]
