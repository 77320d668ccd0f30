-- ===== src/Stub/Breakpoints/Table.antt =====
-- The loops over the table of breakpoints: how many records are in use, and which one is found.
use rpi_stub.Common.{
  ℕ, suc, ◌+◌, ◌≤◌, ◌<◌, ◌≡◌, ◌≢◌, refl, true, false, none, some, List, [], ◌∷◌, length, get_or,
  arith, if◌then◌else◌, Option-cases, inl, inr, All, ◌⊎◌, ◌==◌, ◌&&◌, Bool-cases,
}
use rpi_stub.Stub.Breakpoints.{
  TrapRec, Search, found, wrong_kind, missing, behind, place, remove, find_user, clear_all,
}

-- the records in use
abbrev pub used : List TrapRec → ℕ
used [] = 0
used (t ∷ ts) = (if t.valid then 1 else 0) + used ts

pub used-le : (ts : List TrapRec) → used ts ≤ length ts
used-le [] = omega arith
used-le (t ∷ ts) = ground (arith, used-le ts)

pub place-used :
    (new : TrapRec) (ts : List TrapRec) {us : List TrapRec}
    → new.valid ≡ true
    → place new ts ≡ some us
    → (used us ≡ used ts + 1) × (length us ≡ length ts)
unfolding place
place-used new [] v h = cc
place-used new (t ∷ ts) {us} v h = elim (Bool-cases (t.valid)) [
  | inl e ↦ elim (Option-cases (place new ts)) [
    | inl none_left ↦ ground (arith, none_left)
    | inr (ws, f) ↦ let ih = place-used new ts v f in ground (arith, f, ih)
  ]
  | inr e ↦ ground arith
]

pub place-full : (new : TrapRec) (ts : List TrapRec) → place new ts ≡ none → used ts ≡ length ts
unfolding place
place-full new [] h = refl
place-full new (t ∷ ts) h = elim (Option-cases (place new ts)) [
  | inl e ↦ ground (arith, place-full new ts e)
  | inr (ws, f) ↦ ground (arith, f)
]

pub data Removed (ts : List TrapRec) : Search → Type 0 where
  removed :
      {us : List TrapRec} {v : ℕ}
      → suc (used us) ≡ used ts
      → length us ≡ length ts
      → Removed ts (found us v)
  refused : Removed ts wrong_kind
  absent : Removed ts missing

Removed-behind :
    (t : TrapRec) {ts : List TrapRec} {r : Search} → Removed ts r → Removed (t ∷ ts) (behind t r)
Removed-behind t (removed h k) = removed (omega arith) (omega arith)
Removed-behind t refused = refused
Removed-behind t absent = absent

pub remove-Removed : (a k : ℕ) (ts : List TrapRec) → Removed ts (remove a k ts)
unfolding remove
remove-Removed a k [] = absent
remove-Removed a k (t ∷ ts) = elim (Bool-cases (t.valid)) [
  | inl v ↦ elim (Bool-cases (t.trap_address == a)) [
    | inl e ↦ elim (Bool-cases (t.trap_kind == k)) [
      | inl f ↦ simp (v, e, f) (removed (ground arith) refl)
      | inr f ↦ simp (v, e, f) refused
    ]
    | inr e ↦ simp (v, e) (Removed-behind t (remove-Removed a k ts))
  ]
  | inr v ↦ simp v (Removed-behind t (remove-Removed a k ts))
]

pub used-clear_all :
    (ts : List TrapRec) → (used (clear_all ts) ≡ 0) × (length (clear_all ts) ≡ length ts)
unfolding clear_all
used-clear_all [] = (refl, refl)
used-clear_all (t ∷ ts) = omega (arith, used-clear_all ts)

find_user_placed :
    (new : TrapRec) (ts : List TrapRec) (i : ℕ) {us : List TrapRec}
    → new.valid ≡ true
    → place new ts ≡ some us
    → find_user new.trap_address us i ≢ none
unfolding place find_user
find_user_placed new [] i v h = absurd (ground arith)
find_user_placed new (t ∷ ts) i {us} v h = elim (Bool-cases (t.valid)) [
  | inl e ↦ elim (Option-cases (place new ts)) [
    | inl f ↦ ground (arith, f)
    | inr (ws, f) ↦ ground (arith, f, find_user_placed new ts (i + 1) v f)
  ]
  | inr e ↦ ground arith
]

abbrev pub no_trap : TrapRec
no_trap = record { trap_address = 0xffffffff; instruction = 0; trap_kind = 0; valid = false }

-- What is found is the number of a valid record of the address.
pub find_user_sound :
    (pc : ℕ) (ts : List TrapRec) (i k : ℕ)
    → find_user pc ts i ≡ some k
    → (n : ℕ) × (k ≡ i + n)
      × (n < length ts)
      × ((get_or ts n no_trap).trap_address ≡ pc)
      × ((get_or ts n no_trap).valid ≡ true)
unfolding find_user
find_user_sound pc [] i k h = absurd (ground arith)
find_user_sound pc (t ∷ ts) i k h = elim (Bool-cases ((t.trap_address == pc) && t.valid)) [
  | inl e ↦ (0, ground arith, ground arith, ground arith, ground arith)
  | inr e ↦
      let (n, at, inside, address, valid) = find_user_sound pc ts (i + 1) k (ground arith) in
      (suc n, omega arith, omega arith, address, valid)
]

-- Where nothing is found, no valid record has the address.
pub find_user_complete :
    (pc : ℕ) (ts : List TrapRec) (i : ℕ)
    → find_user pc ts i ≡ none
    → All (λ t. (t.trap_address ≢ pc) ⊎ (t.valid ≡ false)) ts
unfolding find_user
find_user_complete pc [] i h = tt
find_user_complete pc (t ∷ ts) i h = elim (Bool-cases (t.valid)) [
  | inl v ↦ (inl (ground arith), find_user_complete pc ts (i + 1) (ground arith))
  | inr v ↦ (inr v, find_user_complete pc ts (i + 1) (ground arith))
]

-- A record that was placed is found at its address, itself or another one of that address.
pub find_user-place :
    (new : TrapRec) (ts : List TrapRec) {us : List TrapRec}
    → new.valid ≡ true
    → place new ts ≡ some us
    → (n : ℕ) × (find_user new.trap_address us 0 ≡ some n)
      × (n < length us)
      × ((get_or us n no_trap).trap_address ≡ new.trap_address)
      × ((get_or us n no_trap).valid ≡ true)
find_user-place new ts {us} v h = elim (Option-cases (find_user new.trap_address us 0)) [
  | inl e ↦ absurd (find_user_placed new ts 0 v h e)
  | inr (k, e) ↦
      let (n, at, inside, address, valid) = find_user_sound new.trap_address us 0 k e in
      let same : k ≡ n = omega arith in (n, rw (← same) e, inside, address, valid)
]

pub find_user-clear_all :
    (pc : ℕ) (ts : List TrapRec) (i : ℕ) → find_user pc (clear_all ts) i ≡ none
unfolding clear_all find_user
find_user-clear_all pc [] i = refl
find_user-clear_all pc (t ∷ ts) i = ground (arith, find_user-clear_all pc ts (i + 1))
